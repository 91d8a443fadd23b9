-- ===== src/Registry/Numbers.antt =====
-- Endpoints of a number: what getEndpointsForNumber returns, and how addEndpoint changes it.
use gofaxserver.Prelude.{
  All-of_Member, String, ◌≡◌, refl, sym, ap, subst, ◌≢◌, ◌⊎◌, inl, inr, true, false, not, Option,
  none, some, List, [], ◌∷◌, ◌++◌, arith, nat_eq, if◌then◌else◌, ◌==◌, Eq_nat, Eq_text, beq_refl,
  Bool-cases, Option-cases, is_empty, Member, All,
}
use gofaxserver.Prelude.Sort.{keep-Member, Member-keep}
use gofaxserver.Prelude.Map.{find_key-put, find_key, or_nil}
use gofaxserver.Model.{TenantNumber, Endpoint}
use gofaxserver.Registry.{
  append_at, number_of, add_endpoint, filter_valid, get_endpoints_for_number, Registry,
}

-- The endpoints that a number has by itself, and through its tenant.
abbrev pub own_endpoints : String → Registry → List Endpoint
own_endpoints number g = or_nil (find_key number g.number_endpoints)

abbrev shared_by : Registry → Option TenantNumber → List Endpoint
shared_by g none = []
shared_by g (some tn) = or_nil (find_key tn.tenant_id g.tenant_endpoints)

abbrev pub shared_endpoints : String → Registry → List Endpoint
shared_endpoints number g = shared_by g (find_key number g.tenant_numbers)

abbrev pub Valid : String → Registry → Endpoint → Type 0
Valid number g ep =
    (ep.priority ≢ 666)
    × (Member ep (own_endpoints number g) ⊎ Member ep (shared_endpoints number g))

filter_valid-Valid :
    (ep : Endpoint) (eps : List Endpoint)
    → Member ep (filter_valid eps)
    → (ep.priority ≢ 666) × Member ep eps
filter_valid-Valid ep eps m =
    let (there, ok) = Member-keep (λ ep. not (ep.priority == 666)) ep eps m in
    ((λ e. let no : not (nat_eq 666 666) ≡ true = rw e at ok in cc), there)

-- What getEndpointsForNumber returns is not empty, and each endpoint of it belongs to the number or
-- to the number's tenant and has another priority than 666.
pub get_endpoints_for_number-Valid :
    (number : String) (g : Registry) (eps : List Endpoint)
    → get_endpoints_for_number number g ≡ some eps
    → (is_empty eps ≡ false) × All (Valid number g) eps
unfolding get_endpoints_for_number
get_endpoints_for_number-Valid number g eps found =
    let own = filter_valid (own_endpoints number g) in
    elim (Bool-cases (is_empty own)) [
      | inr full ↦
          let same : own ≡ eps = (let f : some own ≡ some eps = rw full at found in cc) in
          rw⁻¹ same (
            full,
            All-of_Member (Valid number g) own (λ ep m.
                let (ok, there) = filter_valid-Valid ep (own_endpoints number g) m in
                (ok, inl there)),
          )
      | inl empty ↦ elim (Option-cases (find_key number g.tenant_numbers)) [
        | inl unknown ↦ absurd (let f : none ≡ some eps = rw (empty, unknown) at found in cc)
        | inr (tn, known) ↦
            let all = or_nil (find_key tn.tenant_id g.tenant_endpoints) in
            let shared = filter_valid all in
            elim (Bool-cases (is_empty shared)) [
              | inl none_valid ↦
                  absurd (let f : none ≡ some eps = rw (empty, known, none_valid) at found in cc)
              | inr full ↦
                  let same : shared ≡ eps =
                    (let f : some shared ≡ some eps = rw (empty, known, full) at found in cc) in
                  rw⁻¹ same (
                    full,
                    All-of_Member (Valid number g) shared (λ ep m.
                        let (ok, there) = filter_valid-Valid ep all m in
                        (ok, inr (subst (Member ep) (sym (ap (shared_by g) known)) there))),
                  )
            ]
      ]
    ]

Member-last : (ep : Endpoint) (eps : List Endpoint) → Member ep (eps ++ ep ∷ [])
Member-last ep [] = inl refl
Member-last ep (x ∷ eps) = inr (Member-last ep eps)

Member-is_empty : (ep : Endpoint) (eps : List Endpoint) → Member ep eps → is_empty eps ≡ false
Member-is_empty ep [] m = absurd m
Member-is_empty ep (x ∷ eps) m = refl

-- An endpoint of a number with another priority than 666 that was added without an error is among
-- the endpoints that getEndpointsForNumber then returns for that number.
pub add_endpoint-get_endpoints_for_number :
    (ep : Endpoint) (g g' : Registry)
    → ep.scope ≡ "number"
    → ep.priority ≢ 666
    → add_endpoint ep g ≡ some g'
    → (eps : List Endpoint) × (get_endpoints_for_number (number_of ep.type_id g.tenant_numbers) g'
        ≡ some eps)
      × Member ep eps
unfolding add_endpoint get_endpoints_for_number
add_endpoint-get_endpoints_for_number ep g g' scope valid added =
    let number = number_of ep.type_id g.tenant_numbers in
    let old = own_endpoints number g in
    let new : Registry = record g { number_endpoints = append_at number ep g.number_endpoints } in
    let stored : add_endpoint ep g ≡ (if number == "" then none else some new) =
      rw (add_endpoint, scope) refl in
    elim (Bool-cases (number == "")) [
      | inl no_number ↦ absurd (let f : none ≡ some g' = rw (stored, no_number) at added in cc)
      | inr some_number ↦
          let same : new ≡ g' =
            (let f : some new ≡ some g' = rw (stored, some_number) at added in cc) in
          let grown : own_endpoints number new ≡ old ++ ep ∷ [] =
            rw (find_key-put number number (old ++ ep ∷ []) g.number_endpoints, beq_refl number)
              refl in
          let passes : not (ep.priority == 666) ≡ true = ground arith in
          let there : Member ep (filter_valid (own_endpoints number new)) = rw grown (
            keep-Member (λ e. not (e.priority == 666)) ep (old ++ ep ∷ []) (Member-last ep old)
              passes) in
          let full = Member-is_empty ep (filter_valid (own_endpoints number new)) there in
          rw⁻¹ same (
            filter_valid (own_endpoints number new),
            rw (get_endpoints_for_number, full) refl,
            there,
          )
    ]
