-- ===== src/Registry.antt =====
-- The registry of tenants, numbers and endpoints that the server keeps in memory
-- (gofaxserver/endpoints.go, gofaxserver/tenants.go, and the maps of Server in
-- gofaxserver/server.go). What the database and the resolver answer is an argument; nothing, or
-- false, stands for an error that the source returns.
pub mod Numbers
pub mod Loading
pub mod Gateways
pub mod Bridging
pub mod Owners
use gofaxserver.Prelude.{
  ℕ, String, Bool, true, false, ◌&&◌, ◌||◌, not, Option, none, some, List, [], ◌∷◌, ◌++◌,
  if◌then◌else◌, Eq, ◌==◌, Eq_nat, Eq_text, is_empty, is_some, keep, first_such,
}
use gofaxserver.Prelude.Text.{before_colon, after_colon, has_prefix}
use gofaxserver.Model.{Tenant, TenantNumber, Endpoint}
use gofaxserver.Prelude.Map.{or_nil, delete, put, find_key, Map}
use Prim.Native.String

pub record Registry : Type 0 where
  pub tenants : Map ℕ Tenant
  pub tenant_numbers : Map String TenantNumber
  pub tenant_endpoints : Map ℕ (List Endpoint)
  pub number_endpoints : Map String (List Endpoint)
  pub endpoints : Map String Endpoint
  pub gateway_endpoints_acl : List String
  pub gateway_acl_resolved : Map String (List String)
  pub upstream_fs_gateways : List String

-- The loop that looks for the number of a tenant number's id; "" if there is none.
unfoldable pub number_of : ℕ → Map String TenantNumber → String
number_of type_id [] = ""
number_of type_id ((_, tn) ∷ m) =
    let rest = number_of type_id m in if tn.id == type_id then tn.number else rest

abbrev pub endpoint_key : Endpoint → String
endpoint_key ep = String.◌++◌ ep.scope (String.◌++◌ "/" ep.endpoint)

-- m[k] = append(m[k], ep)
abbrev pub append_at :
    {K : Type 0} ⦃e : Eq K⦄ → K → Endpoint → Map K (List Endpoint) → Map K (List Endpoint)
append_at k ep m = put k (or_nil (find_key k m) ++ ep ∷ []) m

abbrev pub is_gateway : Endpoint → Bool
is_gateway ep = ep.endpoint_type == "gateway"

abbrev pub add_upstream : Endpoint → List String → List String
add_upstream ep gws = if is_gateway ep then gws ++ before_colon ep.endpoint ∷ [] else gws

-- addEndpoint
unfoldable pub add_endpoint : Endpoint → Registry → Option Registry
unfolding number_of
add_endpoint ep g =
    let number = number_of ep.type_id g.tenant_numbers in
    if ep.scope == "tenant"
    then some (record g { tenant_endpoints = append_at ep.type_id ep g.tenant_endpoints })
    else if ep.scope == "number"
    then (if number == ""
        then none
        else some (record g { number_endpoints = append_at number ep g.number_endpoints }))
    else if ep.scope == "global"
    then some (record g {
      upstream_fs_gateways = add_upstream ep g.upstream_fs_gateways;
      endpoints = put (endpoint_key ep) ep g.endpoints;
    })
    else none

-- The endpoints without the first of this id, if there is one.
unfoldable pub remove_first : ℕ → List Endpoint → Option (List Endpoint)
remove_first k [] = none
remove_first k (ep ∷ eps) =
    let rest = remove_first k eps in
    if ep.id == k then some eps else (elim rest [ none ↦ none | some eps' ↦ some (ep ∷ eps') ])

unfoldable pub remove_in : {K : Type 0} → ℕ → Map K (List Endpoint) → Option (Map K (List Endpoint))
unfolding remove_first
remove_in k [] = none
remove_in k ((j, eps) ∷ m) =
    let rest = remove_in k m in
    elim (remove_first k eps) [
      | some eps' ↦ some ((j, eps') ∷ m)
      | none ↦ (elim rest [ none ↦ none | some m' ↦ some ((j, eps) ∷ m') ])
    ]

-- Whether an endpoint of this id is global and stands for the gateway.
abbrev stands_for : ℕ → String → Endpoint → Bool
stands_for k gw ep =
    ep.id == k
    && ep.scope == "global"
    && (has_prefix ep.endpoint (String.◌++◌ gw ":") || ep.endpoint == gw)

abbrev any_endpoint : (Endpoint → Bool) → Map String Endpoint → Bool
any_endpoint p [] = false
any_endpoint p ((_, ep) ∷ m) = p ep || any_endpoint p m

unfoldable pub remove_upstream : ℕ → Map String Endpoint → List String → List String
unfolding has_prefix
remove_upstream k m [] = []
remove_upstream k m (gw ∷ gws) =
    let rest = remove_upstream k m gws in
    if any_endpoint (stands_for k gw) m then gws else gw ∷ rest

unfoldable pub remove_entry : ℕ → Map String Endpoint → Option (Map String Endpoint)
remove_entry k [] = none
remove_entry k ((j, ep) ∷ m) =
    let rest = remove_entry k m in
    if ep.id == k then some m else (elim rest [ none ↦ none | some m' ↦ some ((j, ep) ∷ m') ])

-- removeEndpoint; the Boolean tells whether it returned nil
unfoldable pub remove_endpoint : ℕ → Registry → Bool × Registry
unfolding remove_in remove_upstream remove_entry
remove_endpoint k g = elim (remove_in k g.tenant_endpoints) [
  | some m ↦ (true, record g { tenant_endpoints = m })
  | none ↦ elim (remove_in k g.number_endpoints) [
    | some m ↦ (true, record g { number_endpoints = m })
    | none ↦
        let gws = remove_upstream k g.endpoints g.upstream_fs_gateways in
        elim (remove_entry k g.endpoints) [
          | some m ↦ (true, record g { upstream_fs_gateways = gws; endpoints = m })
          | none ↦ (false, record g { upstream_fs_gateways = gws })
        ]
  ]
]

-- addTenantNumber; `create` is DB.Create, which gives the row its key
unfoldable pub add_tenant_number :
    (TenantNumber → Option TenantNumber) → ℕ → TenantNumber → Registry → Option Registry
add_tenant_number create tenant_id number g =
    if not (is_some (find_key tenant_id g.tenants))
    then none
    else if is_some (find_key number.number g.tenant_numbers)
    then none
    else (elim (create (record number { tenant_id = tenant_id })) [
      | none ↦ none
      | some row ↦ some (record g { tenant_numbers = put row.number row g.tenant_numbers })
    ])

-- removeTenantNumber; `delete_row` is DB.Delete
unfoldable pub remove_tenant_number : (ℕ → Bool) → ℕ → String → Registry → Option Registry
remove_tenant_number delete_row tenant_id number g = elim (find_key number g.tenant_numbers) [
  | none ↦ none
  | some tn ↦
      if not (tn.tenant_id == tenant_id) || not (delete_row tn.id)
      then none
      else some (record g { tenant_numbers = delete number g.tenant_numbers })
]

-- getNumber and getTenantByNumber
abbrev pub get_number : String → Registry → Option TenantNumber
get_number number g = find_key number g.tenant_numbers

unfoldable pub get_tenant_by_number : String → Registry → Option Tenant
get_tenant_by_number number g = elim (find_key number g.tenant_numbers) [
  | none ↦ none
  | some tn ↦ find_key tn.tenant_id g.tenants
]

-- The function filterValid: priority 666 keeps an endpoint from being sent to.
abbrev pub filter_valid : List Endpoint → List Endpoint
filter_valid eps = keep (λ ep. not (ep.priority == 666)) eps

-- getEndpointsForNumber
unfoldable pub get_endpoints_for_number : String → Registry → Option (List Endpoint)
get_endpoints_for_number number g =
    let own = filter_valid (or_nil (find_key number g.number_endpoints)) in
    if not (is_empty own) then some own else (elim (find_key number g.tenant_numbers) [
      | none ↦ none
      | some tn ↦
          let shared = filter_valid (or_nil (find_key tn.tenant_id g.tenant_endpoints)) in
          if not (is_empty shared) then some shared else none
    ])

-- Whether an entry of the ACL holds this address after its colon, or is the address.
abbrev pub is_literal : String → String → Bool
is_literal ip entry = elim (after_colon entry) [ none ↦ entry == ip | some host ↦ host == ip ]

abbrev pub any_equal : String → List String → Bool
any_equal ip [] = false
any_equal ip (a ∷ addresses) = a == ip || any_equal ip addresses

abbrev pub is_resolved : Map String (List String) → String → String → Bool
is_resolved resolved ip entry = any_equal ip (or_nil (find_key entry resolved))

-- fsGatewayACL
unfoldable pub fs_gateway_acl : String → Registry → Option String
unfolding after_colon
fs_gateway_acl ip g = elim (first_such (is_literal ip) g.gateway_endpoints_acl) [
  | some entry ↦ some entry
  | none ↦ first_such (is_resolved g.gateway_acl_resolved ip) g.gateway_endpoints_acl
]

-- One round of the loop of loadEndpoints.
unfoldable pub load_endpoint : Endpoint → Registry → Registry
unfolding number_of
load_endpoint ep g =
    let number = number_of ep.type_id g.tenant_numbers in
    let listed : Registry = record g {
      endpoints = put (endpoint_key ep) ep g.endpoints;
      gateway_endpoints_acl =
          if is_gateway ep
          then g.gateway_endpoints_acl ++ ep.endpoint ∷ []
          else g.gateway_endpoints_acl;
    } in
    if ep.scope == "global"
    then record listed { upstream_fs_gateways = add_upstream ep g.upstream_fs_gateways }
    else if ep.scope == "tenant"
    then record listed { tenant_endpoints = append_at ep.type_id ep g.tenant_endpoints }
    else if ep.scope == "number" && not (number == "")
    then record listed { number_endpoints = append_at number ep g.number_endpoints }
    else listed

unfoldable pub load_from : List Endpoint → Registry → Registry
load_from [] g = g
load_from (ep ∷ eps) g = load_from eps (load_endpoint ep g)

-- loadEndpoints; `rows` is what the database returns, and `resolve` is resolveGatewayACLs
unfoldable pub load_endpoints :
    (List String → Map String (List String)) → Option (List Endpoint) → Registry → Option Registry
load_endpoints resolve none g = none
load_endpoints resolve (some rows) g =
    let reset : Registry = record g {
      tenant_endpoints = [];
      number_endpoints = [];
      endpoints = [];
      upstream_fs_gateways = [];
      gateway_endpoints_acl = [];
    } in
    let loaded = load_from rows reset in
    some (record loaded { gateway_acl_resolved = resolve loaded.gateway_endpoints_acl })
