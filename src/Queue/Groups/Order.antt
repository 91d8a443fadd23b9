-- ===== src/Queue/Groups/Order.antt =====
-- What the groups hold, and in which order their priorities are tried.
use gofaxserver.Prelude.{
  ℕ, ◌≤◌, String, ◌≡◌, refl, sym, ap, ◌∙◌, ◌≢◌, ◌↔◌, ◌⊎◌, inl, inr, Bool, true, false, ◌&&◌, List,
  [], ◌∷◌, ◌++◌, arith, eq_iff, if◌then◌else◌, nat_eq_iff, ◌==◌, Eq_nat, Eq_text, Bool-cases, keep,
  Member,
}
use gofaxserver.Prelude.Sort.{
  Member-sort_stable, sort_stable-Member, sort_stable-IsSorted, IsSorted,
}
use gofaxserver.Model.{Endpoint}
use mathlib.Core.List.{append-nil, append_assoc}
use gofaxserver.Prelude.Map.{or_nil, find_key, put, find_key-put}
use gofaxserver.Queue.Groups.{
  PrioMap, keys, sorted_prios, prio_before, group_endpoints, group_from, GroupMap, add_to_group,
}

-- The group of a type and a priority.
abbrev pub group_of : String → ℕ → GroupMap → List Endpoint
group_of ty p g = or_nil (find_key p (or_nil (find_key ty g)))

abbrev pub belongs : String → ℕ → Endpoint → Bool
belongs ty p ep = ep.endpoint_type == ty && ep.priority == p

group_of-add_to_group :
    (ty : String) (p : ℕ) (ep : Endpoint) (g : GroupMap)
    → group_of ty p (add_to_group ep g)
      ≡ (if belongs ty p ep then group_of ty p g ++ ep ∷ [] else group_of ty p g)
unfolding add_to_group
group_of-add_to_group ty p ep g =
    let prios = or_nil (find_key ep.endpoint_type g) in
    let group = or_nil (find_key ep.priority prios) in
    let outer = find_key-put ep.endpoint_type ty (put ep.priority (group ++ ep ∷ []) prios) g in
    let inner = find_key-put ep.priority p (group ++ ep ∷ []) prios in
    elim (Bool-cases (ep.endpoint_type == ty)) [
      | inr other ↦ rw (outer, other) refl
      | inl same ↦ elim (Bool-cases (ep.priority == p)) [
        | inl same_p ↦
            let e = (eq_iff ep.endpoint_type ty).0 same in
            let e' = (nat_eq_iff ep.priority p).0 same_p in
            rw (outer, same, inner, same_p, e, e') refl
        | inr other_p ↦
            let e = (eq_iff ep.endpoint_type ty).0 same in rw (outer, same, inner, other_p, e) refl
      ]
    ]

group_from-keep :
    (ty : String) (p : ℕ) (eps : List Endpoint) (g : GroupMap)
    → group_of ty p (group_from eps g) ≡ group_of ty p g ++ keep (belongs ty p) eps
unfolding group_from
group_from-keep ty p [] g = sym (append-nil (group_of ty p g))
group_from-keep ty p (ep ∷ eps) g =
    let step = group_of-add_to_group ty p ep g in
    let rest = group_from-keep ty p eps (add_to_group ep g) in
    let old = group_of ty p g in
    let kept = keep (belongs ty p) eps in
    elim (Bool-cases (belongs ty p ep)) [
      | inl here ↦
          let added : group_of ty p (add_to_group ep g) ≡ old ++ ep ∷ [] = rw here at step in
          rw here (rest ∙ ap (λ l. l ++ kept) added ∙ append_assoc old (ep ∷ []) kept)
      | inr there ↦
          let same : group_of ty p (add_to_group ep g) ≡ old = rw there at step in
          rw there (rest ∙ ap (λ l. l ++ kept) same)
    ]

-- The group of a type and a priority holds the job's endpoints of that type and priority, each as
-- often as the job lists it, in the job's order.
pub group_endpoints-keep :
    (ty : String) (p : ℕ) (eps : List Endpoint)
    → group_of ty p (group_endpoints eps) ≡ keep (belongs ty p) eps
unfolding group_endpoints find_key
group_endpoints-keep ty p eps = group_from-keep ty p eps []

-- `a` is tried no later than `b`: `b` is 999, or both are ordinary and `a` is at most `b`.
abbrev pub PrioLe : ℕ → ℕ → Type 0
PrioLe a b = (b ≡ 999) ⊎ ((a ≢ 999) × (a ≤ b))

before_le : (a b : ℕ) → prio_before a b ≡ true → PrioLe a b
unfolding prio_before
before_le a b h = ground arith

after_le : (a b : ℕ) → prio_before a b ≡ false → PrioLe b a
unfolding prio_before
after_le a b h = ground arith

PrioLe-trans : (a b c : ℕ) → PrioLe a b → PrioLe b c → PrioLe a c
PrioLe-trans a b c h k = ground arith

-- The priorities of a type are tried in ascending order with 999 last, and those that are tried are
-- those that have a group.
pub sorted_prios_lem :
    (m : PrioMap)
    → IsSorted PrioLe (sorted_prios m) × ((p : ℕ) → Member p (sorted_prios m) ↔ Member p (keys m))
unfolding sorted_prios
sorted_prios_lem m = (
  sort_stable-IsSorted PrioLe prio_before before_le after_le PrioLe-trans (keys m),
  λ p. (Member-sort_stable prio_before p (keys m), sort_stable-Member prio_before p (keys m)),
)
