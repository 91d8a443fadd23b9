-- ===== src/Registry/Bridging.antt =====
-- Where a call is bridged to: detectAndRouteToBridge and checkForBridge of gofaxserver/router.go,
-- and getEndpointByName of gofaxserver/endpoints.go. Nothing stands for the result false.
use gofaxserver.Prelude.{
  String, ◌≡◌, sym, ◌∙◌, subst, ◌⊎◌, inl, inr, Bool, true, false, ◌&&◌, Option, none, some, List,
  [], ◌∷◌, arith, eq_iff, if◌then◌else◌, ◌==◌, Eq_nat, Eq_text, Bool-cases, Option-cases,
  first_such, Member, All,
}
use gofaxserver.Prelude.Sort.{first_such-some}
use gofaxserver.Registry.Numbers.{get_endpoints_for_number-Valid, Valid}
use gofaxserver.Registry.{any_equal, get_endpoints_for_number, Registry}
use gofaxserver.Model.{Endpoint}
use gofaxserver.Prelude.Text.{contains_text, before_colon}
use gofaxserver.Prelude.Map.{Map}

abbrev values : Map String Endpoint → List Endpoint
values [] = []
values ((_, ep) ∷ m) = ep ∷ values m

-- The first endpoint whose key holds the name.
abbrev by_part : String → Map String Endpoint → Option Endpoint
by_part name [] = none
by_part name ((k, ep) ∷ m) =
    let rest = by_part name m in if contains_text k name then some ep else rest

-- getEndpointByName: the gateway's own name goes before a part of a key
unfoldable pub get_endpoint_by_name : String → Registry → Option Endpoint
unfolding before_colon
get_endpoint_by_name name g =
    elim (first_such (λ ep. before_colon ep.endpoint == name) (values g.endpoints)) [
      | some ep ↦ some ep
      | none ↦ by_part name g.endpoints
    ]

abbrev bridges_gateway : Endpoint → Bool
bridges_gateway ep = ep.bridge && ep.endpoint_type == "gateway"

-- checkForBridge
unfoldable pub check_for_bridge : String → Registry → Option String
unfolding before_colon get_endpoints_for_number
check_for_bridge number g = elim (get_endpoints_for_number number g) [
  | none ↦ none
  | some eps ↦ elim (first_such bridges_gateway eps) [
    | none ↦ none
    | some ep ↦ some (before_colon ep.endpoint)
  ]
]

-- detectAndRouteToBridge
unfoldable pub detect_and_route_to_bridge : String → String → String → Registry → Option String
unfolding check_for_bridge get_endpoint_by_name
detect_and_route_to_bridge dst_number src_number src_gateway g =
    if any_equal src_gateway g.upstream_fs_gateways
    then check_for_bridge dst_number g
    else (elim (get_endpoint_by_name src_gateway g) [
      | none ↦ none
      | some ep ↦
          if ep.bridge
          then (elim (check_for_bridge dst_number g) [ some gw ↦ some gw | none ↦ some "upstream" ])
          else none
    ])

-- A gateway that the number's endpoints allow bridging to.
pub record BridgesTo (number : String) (g : Registry) (name : String) : Type 0 where
  pub endpoint : Endpoint
  pub valid : Valid number g endpoint
  pub bridging : endpoint.bridge ≡ true
  pub gateway : endpoint.endpoint_type ≡ "gateway"
  pub named : name ≡ before_colon endpoint.endpoint

All-Member :
    (P : Endpoint → Type 0) (eps : List Endpoint) (ep : Endpoint) → All P eps → Member ep eps → P ep
All-Member P [] ep h m = absurd m
All-Member P (x ∷ eps) ep (p, h) (inl e) = subst P (sym e) p
All-Member P (x ∷ eps) ep (p, h) (inr m) = All-Member P eps ep h m

check_for_bridge-BridgesTo :
    (number : String) (g : Registry) (name : String)
    → check_for_bridge number g ≡ some name
    → BridgesTo number g name
unfolding check_for_bridge
check_for_bridge-BridgesTo number g name e =
    elim (Option-cases (get_endpoints_for_number number g)) [
      | inl unknown ↦ absurd (let f : none ≡ some name = rw (check_for_bridge, unknown) at e in cc)
      | inr (eps, known) ↦ elim (Option-cases (first_such bridges_gateway eps)) [
        | inl no_bridge ↦
            absurd (let f : none ≡ some name = rw (check_for_bridge, known, no_bridge) at e in cc)
        | inr (ep, found) ↦
            let (m, t) = first_such-some bridges_gateway eps ep found in
            let (_, all) = get_endpoints_for_number-Valid number g eps known in
            let f : some (before_colon ep.endpoint) ≡ some name =
              rw (check_for_bridge, known, found) at e in
            record {
              endpoint = ep;
              valid = All-Member (Valid number g) eps ep all m;
              bridging = ground arith;
              gateway = (eq_iff ep.endpoint_type "gateway").0 (ground arith);
              named = (let same : before_colon ep.endpoint ≡ name = cc in sym same);
            }
      ]
    ]

-- The gateway that a call came from, which is not upstream, has an endpoint with bridging on.
abbrev pub MayBridge : String → Registry → Type 0
MayBridge src_gateway g =
    (any_equal src_gateway g.upstream_fs_gateways ≡ false)
    × ((ep : Endpoint) × (get_endpoint_by_name src_gateway g ≡ some ep) × (ep.bridge ≡ true))

-- Whatever its source number, a call is bridged only if it comes from an upstream gateway, or from a
-- gateway whose endpoint has bridging on; it is bridged to a gateway that the destination's endpoints
-- allow bridging to, none of them of priority 666, or else upstream, and upstream only if it does not
-- come from an upstream gateway and the destination has no such gateway.
pub detect_and_route_to_bridge-BridgesTo :
    (dst_number src_number src_gateway name : String) (g : Registry)
    → detect_and_route_to_bridge dst_number src_number src_gateway g ≡ some name
    → (BridgesTo dst_number g name
        × ((any_equal src_gateway g.upstream_fs_gateways ≡ true) ⊎ MayBridge src_gateway g))
      ⊎ ((name ≡ "upstream") × MayBridge src_gateway g × (check_for_bridge dst_number g ≡ none))
unfolding detect_and_route_to_bridge
detect_and_route_to_bridge-BridgesTo dst_number src_number src_gateway name g e =
    elim (Bool-cases (any_equal src_gateway g.upstream_fs_gateways)) [
      | inl upstream ↦ inl (
        check_for_bridge-BridgesTo dst_number g name
            (rw (detect_and_route_to_bridge, upstream) at e),
        inl upstream,
      )
      | inr other ↦ elim (Option-cases (get_endpoint_by_name src_gateway g)) [
        | inl unknown ↦
            absurd (
              let f : none ≡ some name = rw (detect_and_route_to_bridge, other, unknown) at e in cc)
        | inr (ep, known) ↦ elim (Bool-cases ep.bridge) [
          | inr off ↦ absurd (
              let f : none ≡ some name = rw (detect_and_route_to_bridge, other, known, off) at e in
              cc)
          | inl on ↦ elim (Option-cases (check_for_bridge dst_number g)) [
            | inr (gw, there) ↦
                let f : some gw ≡ some name =
                  rw (detect_and_route_to_bridge, other, known, on, there) at e in
                inl (
                  check_for_bridge-BridgesTo dst_number g name (there ∙ f),
                  inr (other, (ep, known, on)),
                )
            | inl not_there ↦
                let f : some "upstream" ≡ some name =
                  rw (detect_and_route_to_bridge, other, known, on, not_there) at e in
                inr (
                  (let same : "upstream" ≡ name = cc in sym same),
                  (other, (ep, known, on)),
                  not_there,
                )
          ]
        ]
      ]
    ]
