-- ===== src/Policy/Learning/Healing.antt =====
-- LearnFaxPolicySuccess: enough successes clear what was learned about a number.
use gofaxserver.Prelude.{
  ℕ, ◌+◌, ◌≤◌, String, ◌≡◌, refl, inl, inr, Bool, true, false, ◌&&◌, not, some, List, [], ◌∷◌,
  arith, leb, ◌==◌, Eq_nat, Eq_text, Bool-cases, keep, Member, All,
}
use gofaxserver.Policy.Rules.{
  FaxPolicyRule, FaxPolicyConfig, policy_enabled, learning_enabled, recovery_threshold, expired,
  is_auto,
}
use gofaxserver.Policy.Learning.{
  reload_fax_policies, Engine, learn_success, credit_rules, credited, prune,
}
use gofaxserver.Policy.Learning.Reload.{prune-keep, reload-cache}
use gofaxserver.Policy.Learning.Table.{RuleTable, DeleteIsGone, is_learned_for}

All-keep :
    (P : FaxPolicyRule → Type 0) (p : FaxPolicyRule → Bool) (xs : List FaxPolicyRule)
    → All P xs
    → All P (keep p xs)
All-keep P p [] h = tt
All-keep P p (x ∷ xs) (px, h) = elim (Bool-cases (p x)) [
  | inl there ↦ rw there (px, All-keep P p xs h)
  | inr gone ↦ rw gone (All-keep P p xs h)
]

module _ (t : RuleTable) (c : FaxPolicyConfig) (remote : String) where
  -- Some rule of the list reaches the threshold by one more success.
  abbrev pub HasHealed : List FaxPolicyRule → Type 0
  HasHealed rules =
      (r : FaxPolicyRule) × Member r rules × (recovery_threshold c ≤ r.success_count + 1)

  -- Then the loop ends in the deletion of all rules of the number, whatever it saved before.
  credit_rules-deletes :
      (now : ℕ) (rules : List FaxPolicyRule) (db : t.Db)
      → HasHealed rules
      → (d : t.Db) × (credit_rules t c now remote rules db ≡ (t.delete_learned remote d).1)
  unfolding credit_rules
  credit_rules-deletes now [] db (r, m, h) = absurd m
  credit_rules-deletes now (x ∷ xs) db (r, m, h) =
      elim (Bool-cases (leb (recovery_threshold c) (x.success_count + 1))) [
        | inl reached ↦ (db, rw reached)
        | inr not_yet ↦ elim m [
          | inl e ↦
              absurd
                (let h' : recovery_threshold c ≤ x.success_count + 1 = rw e at h in ground arith)
          | inr m' ↦
              let (d, e) = credit_rules-deletes now xs (t.save (credited now x) db).1 (r, m', h) in
              (d, rw not_yet e)
        ]
      ]

  learn_success-run :
      (now : ℕ) (e : Engine t) (r : FaxPolicyRule) (rs : List FaxPolicyRule)
      → (policy_enabled c && learning_enabled c && not (remote == "")) ≡ true
      → t.find_learned remote e.db ≡ some (r ∷ rs)
      → learn_success t c now remote e
        ≡ (reload_fax_policies t now
            (record e { db = credit_rules t c now remote (r ∷ rs) e.db })).1
  unfolding learn_success
  learn_success-run now e r rs on found = rw (on, found) refl

module _ (t : RuleTable) (gone : DeleteIsGone t) (c : FaxPolicyConfig) (remote : String) where
  -- With the engine and its learning enabled, a success that brings one learned rule of a number to
  -- the recovery threshold leaves no learned rule of that number in the cache, whichever rule it
  -- was and whatever was saved before it. The database's statements succeed.
  pub learn_success-heals :
      (now : ℕ) (e : Engine t) (rules : List FaxPolicyRule)
      → (policy_enabled c && learning_enabled c && not (remote == "")) ≡ true
      → t.find_learned remote e.db ≡ some rules
      → HasHealed t c remote rules
      → ((d : t.Db) → (t.delete_learned remote d).0 ≡ true)
      → ((d : t.Db) → (all : List FaxPolicyRule) × (t.find_all d ≡ some all))
      → (kept : List FaxPolicyRule) × ((learn_success t c now remote e).cache ≡ some kept)
        × All (λ r. is_learned_for remote r ≡ false) kept
  learn_success-heals now e [] on found (r, m, h) deletes finds = absurd m
  learn_success-heals now e (r ∷ rs) on found healed deletes finds =
      let (d, same) = credit_rules-deletes t c remote now (r ∷ rs) e.db healed in
      let after_delete = (t.delete_learned remote d).1 in
      let (all, listed) = finds after_delete in
      let clean = gone remote d all (deletes d) listed in
      (
        (prune t now all after_delete).0,
        rw (learn_success-run t c remote now e r rs on found, same)
            (reload-cache t now (record e { db = after_delete }) all listed),
        rw (prune-keep t now all after_delete) (
            All-keep (λ x. is_learned_for remote x ≡ false)
              (λ x. not (expired x now && is_auto x.origin)) all clean),
      )
