-- ===== src/Registry/Loading.antt =====
-- What loadEndpoints makes of the rows of the database.
use gofaxserver.Prelude.{
  ℕ, String, ◌≡◌, refl, sym, ap, ◌∙◌, inl, inr, Bool, ◌&&◌, some, List, [], ◌∷◌, ◌++◌, arith,
  eq_iff, if◌then◌else◌, nat_eq_iff, ◌==◌, Eq_nat, Eq_text, Bool-cases, keep,
}
use mathlib.Core.List.{append-nil, append_assoc}
use gofaxserver.Prelude.Map.{Map, find_key, find_key-put, or_nil}
use gofaxserver.Registry.{is_gateway, load_endpoints, load_from, load_endpoint, Registry}
use gofaxserver.Model.{Endpoint}

abbrev pub of_tenant : ℕ → Endpoint → Bool
of_tenant t ep = ep.scope == "tenant" && ep.type_id == t

abbrev pub entries : List Endpoint → List String
entries [] = []
entries (ep ∷ eps) = ep.endpoint ∷ entries eps

-- The endpoints of a tenant.
abbrev pub tenant_list : ℕ → Registry → List Endpoint
tenant_list t g = or_nil (find_key t g.tenant_endpoints)

tenant_list-load_endpoint :
    (t : ℕ) (ep : Endpoint) (g : Registry)
    → tenant_list t (load_endpoint ep g)
      ≡ (if of_tenant t ep then tenant_list t g ++ ep ∷ [] else tenant_list t g)
unfolding load_endpoint
tenant_list-load_endpoint t ep g =
    let added = tenant_list ep.type_id g ++ ep ∷ [] in
    let stored = find_key-put ep.type_id t added g.tenant_endpoints in
    elim (Bool-cases (ep.scope == "global")) [
      | inl global ↦ let e = (eq_iff ep.scope "global").0 global in rw (load_endpoint, e) refl
      | inr not_global ↦ elim (Bool-cases (ep.scope == "tenant")) [
        | inr not_tenant ↦ ground arith
        | inl tenant ↦ elim (Bool-cases (ep.type_id == t)) [
          | inl own ↦
              let e = (nat_eq_iff ep.type_id t).0 own in
              rw (load_endpoint, not_global, tenant, stored, own, e) refl
          | inr other ↦ rw (load_endpoint, not_global, tenant, stored, other) refl
        ]
      ]
    ]

tenant_list-load_from :
    (t : ℕ) (eps : List Endpoint) (g : Registry)
    → tenant_list t (load_from eps g) ≡ tenant_list t g ++ keep (of_tenant t) eps
unfolding load_from
tenant_list-load_from t [] g = sym (append-nil (tenant_list t g))
tenant_list-load_from t (ep ∷ eps) g =
    let rest = tenant_list-load_from t eps (load_endpoint ep g) in
    let step = tenant_list-load_endpoint t ep g in
    let old = tenant_list t g in
    let kept = keep (of_tenant t) eps in
    elim (Bool-cases (of_tenant t ep)) [
      | inl here ↦
          let added : tenant_list t (load_endpoint ep g) ≡ old ++ ep ∷ [] = rw here at step in
          rw here (rest ∙ ap (λ l. l ++ kept) added ∙ append_assoc old (ep ∷ []) kept)
      | inr there ↦
          let same : tenant_list t (load_endpoint ep g) ≡ old = rw there at step in
          rw there (rest ∙ ap (λ l. l ++ kept) same)
    ]

acl-load_endpoint :
    (ep : Endpoint) (g : Registry)
    → (load_endpoint ep g).gateway_endpoints_acl ≡ (
        if is_gateway ep
        then g.gateway_endpoints_acl ++ ep.endpoint ∷ []
        else g.gateway_endpoints_acl)
unfolding load_endpoint
acl-load_endpoint ep g = ground arith

acl-load_from :
    (eps : List Endpoint) (g : Registry)
    → (load_from eps g).gateway_endpoints_acl
      ≡ g.gateway_endpoints_acl ++ entries (keep is_gateway eps)
unfolding load_from
acl-load_from [] g = sym (append-nil g.gateway_endpoints_acl)
acl-load_from (ep ∷ eps) g =
    let rest = acl-load_from eps (load_endpoint ep g) in
    let step = acl-load_endpoint ep g in
    let old = g.gateway_endpoints_acl in
    let kept = entries (keep is_gateway eps) in
    elim (Bool-cases (is_gateway ep)) [
      | inl here ↦
          let added : (load_endpoint ep g).gateway_endpoints_acl ≡ old ++ ep.endpoint ∷ [] =
            rw here at step in
          rw here (rest ∙ ap (λ l. l ++ kept) added ∙ append_assoc old (ep.endpoint ∷ []) kept)
      | inr there ↦
          let same : (load_endpoint ep g).gateway_endpoints_acl ≡ old = rw there at step in
          rw there (rest ∙ ap (λ l. l ++ kept) same)
    ]

-- After a loadEndpoints that could read the table, each tenant has the rows of scope "tenant" with
-- its key, in the table's order and whatever was there before, and the ACL has the entries of all
-- gateways, of every scope.
pub load_endpoints_lem :
    (resolve : List String → Map String (List String)) (rows : List Endpoint) (g g' : Registry)
    → load_endpoints resolve (some rows) g ≡ some g'
    → ((t : ℕ) → tenant_list t g' ≡ keep (of_tenant t) rows)
      × (g'.gateway_endpoints_acl ≡ entries (keep is_gateway rows))
unfolding load_endpoints find_key
load_endpoints_lem resolve rows g g' loaded =
    let reset : Registry = record g {
      tenant_endpoints = [];
      number_endpoints = [];
      endpoints = [];
      upstream_fs_gateways = [];
      gateway_endpoints_acl = [];
    } in
    let all = load_from rows reset in
    let done : Registry = record all { gateway_acl_resolved = resolve all.gateway_endpoints_acl } in
    let same : done ≡ g' = cc in
    rw⁻¹ same ((λ t. tenant_list-load_from t rows reset), acl-load_from rows reset)
