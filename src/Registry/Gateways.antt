-- ===== src/Registry/Gateways.antt =====
-- Which addresses the gateway ACL lets in.
use gofaxserver.Prelude.{
  String, ◌≡◌, refl, ◌↔◌, ◌⊎◌, inl, inr, true, false, Option-cases, is_some, first_such, Member,
}
use gofaxserver.Prelude.Sort.{first_such-none, first_such-some}
use gofaxserver.Registry.{is_resolved, is_literal, Registry, fs_gateway_acl}

-- fsGatewayACL finds a gateway for an address just when some entry of the ACL names the address, as
-- its host or as the whole entry, or was last resolved to it.
pub fs_gateway_acl_iff :
    (ip : String) (g : Registry)
    → (is_some (fs_gateway_acl ip g) ≡ true) ↔ (
        (entry : String) × Member entry g.gateway_endpoints_acl
        × ((is_literal ip entry ≡ true) ⊎ (is_resolved g.gateway_acl_resolved ip entry ≡ true)))
unfolding fs_gateway_acl
fs_gateway_acl_iff ip g =
    let acl = g.gateway_endpoints_acl in
    let by_name = is_resolved g.gateway_acl_resolved ip in
    elim (Option-cases (first_such (is_literal ip) acl)) [
      | inr (entry, e) ↦
          let (m, t) = first_such-some (is_literal ip) acl entry e in
          ((λ _. (entry, m, inl t)), (λ _. rw (fs_gateway_acl, e) refl))
      | inl silent ↦ elim (Option-cases (first_such by_name acl)) [
        | inr (entry, e) ↦
            let (m, t) = first_such-some by_name acl entry e in
            ((λ _. (entry, m, inr t)), (λ _. rw (fs_gateway_acl, silent, e) refl))
        | inl unresolved ↦ (
          (λ h. absurd (let f : false ≡ true = rw (fs_gateway_acl, silent, unresolved) at h in cc)),
          (λ (entry, m, t). absurd (elim t [
            | inl named ↦ (let no = first_such-none (is_literal ip) acl silent entry m in cc)
            | inr found ↦ (let no = first_such-none by_name acl unresolved entry m in cc)
          ])),
        )
      ]
    ]
