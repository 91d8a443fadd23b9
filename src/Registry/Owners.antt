-- ===== src/Registry/Owners.antt =====
-- Whose a gateway is, and the rest of the registry: updateEndpoint, getTenantByGateway and the dial
-- strings of gofaxserver/endpoints.go, and loadTenants, loadTenantNumbers and getEndpointsForBridge of
-- gofaxserver/tenants.go. Nothing stands for an error.
use gofaxserver.Prelude.{
  ℕ, String, ◌≡◌, refl, ◌∙◌, ◌⊎◌, inl, inr, Bool, true, false, ◌&&◌, not, Option, none, some, List,
  [], ◌∷◌, map, if◌then◌else◌, ◌==◌, Eq_nat, Eq_text, Bool-cases, Option-cases, is_empty, is_some,
  first_such, Member,
}
use Prim.Native.String
use gofaxserver.Prelude.Map.{Map, find_key, put, or_nil}
use gofaxserver.Prelude.Text.{before_colon, join_comma}
use gofaxserver.Model.{Endpoint, Tenant, TenantNumber}
use gofaxserver.Registry.{Registry, add_endpoint, remove_endpoint}

-- updateEndpoint; `saves` is DB.Save. The Boolean tells whether it returned nil.
unfoldable pub update_endpoint : (Endpoint → Bool) → Endpoint → Registry → Bool × Registry
update_endpoint saves ep g =
    let (found, g') = remove_endpoint ep.id g in
    if not (saves ep)
    then (false, g)
    else if not found
    then (false, g')
    else (elim (add_endpoint ep g') [ none ↦ (false, g') | some g'' ↦ (true, g'') ])

-- Whether an endpoint is a gateway of this name.
abbrev pub names_gateway : String → Endpoint → Bool
names_gateway gateway ep = ep.endpoint_type == "gateway" && before_colon ep.endpoint == gateway

unfoldable pub by_tenant_endpoints : String → Map ℕ Tenant → Map ℕ (List Endpoint) → Option Tenant
by_tenant_endpoints gateway tenants [] = none
by_tenant_endpoints gateway tenants ((k, eps) ∷ m) =
    let rest = by_tenant_endpoints gateway tenants m in
    if is_some (first_such (names_gateway gateway) eps)
    then (elim (find_key k tenants) [ some t ↦ some t | none ↦ rest ])
    else rest

-- The tenant of a number, looked up without the lock.
abbrev pub tenant_of : String → Registry → Option Tenant
tenant_of number g = elim (find_key number g.tenant_numbers) [
  | none ↦ none
  | some tn ↦ find_key tn.tenant_id g.tenants
]

unfoldable pub by_number_endpoints : String → Registry → Map String (List Endpoint) → Option Tenant
by_number_endpoints gateway g [] = none
by_number_endpoints gateway g ((number, eps) ∷ m) =
    let rest = by_number_endpoints gateway g m in
    if is_some (first_such (names_gateway gateway) eps)
    then (elim (tenant_of number g) [ some t ↦ some t | none ↦ rest ])
    else rest

-- getTenantByGateway
unfoldable pub get_tenant_by_gateway : String → Registry → Option Tenant
get_tenant_by_gateway gateway g = elim (by_tenant_endpoints gateway g.tenants g.tenant_endpoints) [
  | some t ↦ some t
  | none ↦ by_number_endpoints gateway g g.number_endpoints
]

-- getEndpointsForBridge
unfoldable pub get_endpoints_for_bridge : String → Registry → Option (List Endpoint)
get_endpoints_for_bridge number g =
    let own = or_nil (find_key number g.number_endpoints) in
    if not (is_empty own) then some own else (elim (find_key number g.tenant_numbers) [
      | none ↦ none
      | some tn ↦
          let shared = or_nil (find_key tn.tenant_id g.tenant_endpoints) in
          if not (is_empty shared) then some shared else none
    ])

unfoldable pub tenants_by_id : List Tenant → Map ℕ Tenant → Map ℕ Tenant
tenants_by_id [] m = m
tenants_by_id (t ∷ ts) m = tenants_by_id ts (put t.id t m)

unfoldable pub numbers_by_text :
    List TenantNumber → Map String TenantNumber → Map String TenantNumber
numbers_by_text [] m = m
numbers_by_text (n ∷ ns) m = numbers_by_text ns (put n.number n m)

-- reloadTenantsAndNumbers, on what the two queries return; the Boolean tells whether it returned nil
unfoldable pub reload_tenants_and_numbers :
    Option (List Tenant) → Option (List TenantNumber) → Registry → Bool × Registry
reload_tenants_and_numbers none numbers g = (false, g)
reload_tenants_and_numbers (some ts) numbers g =
    let loaded : Registry = record g { tenants = tenants_by_id ts [] } in
    elim numbers [
      | none ↦ (false, loaded)
      | some ns ↦ (true, record loaded { tenant_numbers = numbers_by_text ns [] })
    ]

abbrev glue : List String → String
glue [] = ""
glue (s ∷ ss) = String.◌++◌ s (glue ss)

-- endpointGatewayDialstring, endpointGatewayDialstringTagged and
-- endpointGatewayDialstringOutboundTagged
abbrev dial_leg : String → String → String
dial_leg dst gw = glue ("sofia/gateway/" ∷ gw ∷ "/" ∷ dst ∷ [])

unfoldable pub endpoint_gateway_dialstring : List String → String → String
endpoint_gateway_dialstring gws dst = join_comma (map (dial_leg dst) gws)

unfoldable pub endpoint_gateway_dialstring_tagged : List String → String → String
endpoint_gateway_dialstring_tagged gws dst = join_comma (
    map
      (λ gw.
        glue ("[gofax_bridge_gw=" ∷ gw ∷ ",export_vars=gofax_bridge_gw]" ∷ dial_leg dst gw ∷ []))
      gws)

unfoldable pub endpoint_gateway_dialstring_outbound_tagged : List String → String → String
endpoint_gateway_dialstring_outbound_tagged gws dst =
    join_comma (map (λ gw. glue ("[gofax_gw=" ∷ gw ∷ "]" ∷ dial_leg dst gw ∷ [])) gws)

pub record BridgeAttempt : Type 0 where
  pub gateway : String
  pub hangup_cause : String

-- resolveUpstreamBridgeGateway
unfoldable pub resolve_upstream_bridge_gateway : String → List BridgeAttempt → String
resolve_upstream_bridge_gateway current [] = current
resolve_upstream_bridge_gateway current (a ∷ attempts) =
    let rest = resolve_upstream_bridge_gateway current attempts in
    if not (current == "upstream") then current else if is_empty attempts then a.gateway else rest

-- A tenant to which a gateway of this name belongs, through an endpoint of the tenant or of a number.
abbrev pub Owns : String → Registry → Tenant → Type 0
Owns gateway g t =
    ((k : ℕ) × (eps : List Endpoint) × Member (k, eps) g.tenant_endpoints
      × (is_some (first_such (names_gateway gateway) eps) ≡ true)
      × (find_key k g.tenants ≡ some t))
    ⊎ ((number : String) × (eps : List Endpoint) × Member (number, eps) g.number_endpoints
        × (is_some (first_such (names_gateway gateway) eps) ≡ true)
        × (tenant_of number g ≡ some t))

-- The part of a map that holds an owner, and the owner.
abbrev Holds : {K : Type 0} → (K → Option Tenant) → String → Map K (List Endpoint) → Tenant → Type 0
Holds {K} owner gateway m t =
    (k : K) × (eps : List Endpoint) × Member (k, eps) m
    × (is_some (first_such (names_gateway gateway) eps) ≡ true)
    × (owner k ≡ some t)

Holds-later :
    {K : Type 0} (owner : K → Option Tenant) (gateway : String) (e : K × List Endpoint)
    (m : Map K (List Endpoint)) (t : Tenant)
    → Holds owner gateway m t
    → Holds owner gateway (e ∷ m) t
Holds-later owner gateway e m t (k, eps, there, named, owned) = (k, eps, inr there, named, owned)

by_tenant_endpoints-Holds :
    (gateway : String) (tenants : Map ℕ Tenant) (m : Map ℕ (List Endpoint)) (t : Tenant)
    → by_tenant_endpoints gateway tenants m ≡ some t
    → Holds (λ k. find_key k tenants) gateway m t
unfolding by_tenant_endpoints
by_tenant_endpoints-Holds gateway tenants [] t e = absurd cc
by_tenant_endpoints-Holds gateway tenants ((k, eps) ∷ m) t e =
    let owner : ℕ → Option Tenant = λ i. find_key i tenants in
    let later : by_tenant_endpoints gateway tenants m ≡ some t
        → Holds owner gateway ((k, eps) ∷ m) t =
      λ h.
        Holds-later owner gateway (k, eps) m t (by_tenant_endpoints-Holds gateway tenants m t h) in
    elim (Bool-cases (is_some (first_such (names_gateway gateway) eps))) [
      | inr off ↦ later (rw off at e)
      | inl on ↦ elim (Option-cases (find_key k tenants)) [
        | inl gone ↦ later (rw (on, gone) at e)
        | inr (t', here) ↦ (k, eps, inl refl, on, here ∙ (rw (on, here) at e))
      ]
    ]

by_number_endpoints-Holds :
    (gateway : String) (g : Registry) (m : Map String (List Endpoint)) (t : Tenant)
    → by_number_endpoints gateway g m ≡ some t
    → Holds (λ number. tenant_of number g) gateway m t
unfolding by_number_endpoints
by_number_endpoints-Holds gateway g [] t e = absurd cc
by_number_endpoints-Holds gateway g ((k, eps) ∷ m) t e =
    let owner : String → Option Tenant = λ i. tenant_of i g in
    let later : by_number_endpoints gateway g m ≡ some t → Holds owner gateway ((k, eps) ∷ m) t =
      λ h. Holds-later owner gateway (k, eps) m t (by_number_endpoints-Holds gateway g m t h) in
    elim (Bool-cases (is_some (first_such (names_gateway gateway) eps))) [
      | inr off ↦ later (rw off at e)
      | inl on ↦ elim (Option-cases (tenant_of k g)) [
        | inl gone ↦ later (rw (on, gone) at e)
        | inr (t', here) ↦ (k, eps, inl refl, on, here ∙ (rw (on, here) at e))
      ]
    ]

-- The tenant that getTenantByGateway finds has an endpoint that is a gateway of this name, by itself
-- or through one of its numbers.
pub get_tenant_by_gateway-Owns :
    (gateway : String) (g : Registry) (t : Tenant)
    → get_tenant_by_gateway gateway g ≡ some t
    → Owns gateway g t
unfolding get_tenant_by_gateway
get_tenant_by_gateway-Owns gateway g t e =
    elim (Option-cases (by_tenant_endpoints gateway g.tenants g.tenant_endpoints)) [
      | inr (t', here) ↦ inl (
          by_tenant_endpoints-Holds gateway g.tenants g.tenant_endpoints t
            (here ∙ (rw (get_tenant_by_gateway, here) at e)))
      | inl none_there ↦ inr (
          by_number_endpoints-Holds gateway g g.number_endpoints t
            (rw (get_tenant_by_gateway, none_there) at e))
    ]
