-- ===== src/Policy/Learning/Ladder.antt =====
-- The ladder of LearnFaxPolicyFailure: what a failure changes, and where it never starts.
use gofaxserver.Prelude.{
  ℕ, ◌+◌, ◌≤◌, String, ◌≡◌, refl, ap, ◌∙◌, ◌⊎◌, inl, inr, Bool, true, false, ◌&&◌, not, Option,
  none, some, List, [], ◌∷◌, arith, eq_iff, leb, lt→ltb, ◌==◌, Eq_nat, Eq_text, Bool-cases, Member,
}
use gofaxserver.Policy.Resolve.Order.{IsStrongest-exists, IsStrongest}
use gofaxserver.Policy.Resolve.T38.{resolve-strongest_t38, speaks_of_t38, resolved, allows_t38}
use gofaxserver.Policy.Resolve.{Faxing}
use gofaxserver.Prelude.Sort.{keep-Member}
use gofaxserver.Policy.Learning.Reload.{prune-keep, reload-cache}
use gofaxserver.Model.{FaxResult}
use gofaxserver.Policy.Rules.{
  t38_on, Effect, is_auto, v17_threshold, CallType, auto, ecm_threshold, scope_matches,
  auto_rule_ttl, dst, rule_matches, expired, FaxPolicyRule, FaxPolicyConfig, t38_off, both,
  policy_enabled, learning_enabled, t38_threshold,
}
use gofaxserver.Policy.Learning.{
  reload_fax_policies, upsert_auto_rule, escalate, status_of, prune, Engine, learn_failure,
}
use gofaxserver.Policy.Learning.Table.{CreateIsFound, RuleTable}

module _ (t : RuleTable) (c : FaxPolicyConfig) (remote : String) where
  -- A run of failures of one number, each with its time and its result.
  pub learn_failures : List (ℕ × Option FaxResult) → Engine t → Engine t
  unfolding learn_failure
  learn_failures [] e = e
  learn_failures ((now, result) ∷ rest) e =
      learn_failures rest (learn_failure t c now remote result e)

  learn_failure-below :
      (now : ℕ) (result : Option FaxResult) (e : Engine t)
      → 2 ≤ t38_threshold c
      → t.find_auto remote t38_off both e.db ≡ none
      → learn_failure t c now remote result e ≡ e
  unfolding learn_failure
  learn_failure-below now result e h none_yet =
      rw (none_yet)
        (elim (Bool-cases (policy_enabled c && learning_enabled c && not (remote == ""))) [
          | inl on ↦ rw (on, lt→ltb 1 (t38_threshold c) h)
          | inr off ↦ rw off
        ])

  -- With a threshold of two or more failures for T.38, the ladder never starts: while a number has
  -- no auto t38_off rule, no run of failures changes the table or the cache, however long it is.
  pub learn_failures-stuck :
      (failures : List (ℕ × Option FaxResult)) (e : Engine t)
      → 2 ≤ t38_threshold c
      → t.find_auto remote t38_off both e.db ≡ none
      → learn_failures failures e ≡ e
  unfolding learn_failures
  learn_failures-stuck [] e h none_yet = refl
  learn_failures-stuck ((now, result) ∷ rest) e h none_yet =
      ap (learn_failures rest) (learn_failure-below now result e h none_yet)
      ∙ learn_failures-stuck rest e h none_yet

allows-cases : (e : Effect) → (allows_t38 e ≡ false) ⊎ (e ≡ t38_on)
allows-cases e = ground arith

-- The rule that a first failure leaves, under the key that the database gives it.
abbrev pub learned_rule : FaxPolicyConfig → ℕ → String → String → ℕ → FaxPolicyRule
learned_rule c now remote t38_status k = record {
  id = k;
  scope = dst;
  src_number = "";
  dst_number = remote;
  effect = t38_off;
  applies_to = both;
  origin = auto;
  enabled = true;
  expires_at = some (now + auto_rule_ttl c);
  var_name = "";
  var_value = "";
  failure_count = 1;
  success_count = 0;
  last_seen_at = some now;
  last_t38_status = t38_status;
  notes = "auto-learned from fax failures";
}

not_expired :
    (c : FaxPolicyConfig) (now later : ℕ) (remote status : String) (k : ℕ)
    → later ≤ now + auto_rule_ttl c
    → expired (learned_rule c now remote status k) later ≡ false
unfolding expired
not_expired c now later remote status k h = ground arith

learned_rule-matches :
    (c : FaxPolicyConfig) (now later : ℕ) (remote status : String) (k : ℕ)
    (src_num dst_num : String) (call_type : CallType)
    → later ≤ now + auto_rule_ttl c
    → (src_num ≡ remote) ⊎ (dst_num ≡ remote)
    → rule_matches (learned_rule c now remote status k) src_num dst_num call_type later ≡ true
unfolding rule_matches scope_matches
learned_rule-matches c now later remote status k src_num dst_num call_type h side =
    rw (not_expired c now later remote status k h) (elim side [
      | inl e ↦ rw e (ground (arith, eq_iff remote remote, eq_iff remote dst_num))
      | inr e ↦ rw e (ground (arith, eq_iff remote remote))
    ])

module _ (t : RuleTable) (lawful : CreateIsFound t) (c : FaxPolicyConfig) (remote : String) where
  abbrev made : ℕ → Option FaxResult → Engine t → Bool × t.Db
  made now result e = t.create (learned_rule c now remote (status_of result) 0) e.db

  escalate-first :
      (now : ℕ) (result : Option FaxResult) (e : Engine t)
      → 2 ≤ ecm_threshold c
      → 2 ≤ v17_threshold c
      → t.find_auto remote t38_off both e.db ≡ none
      → (made now result e).0 ≡ true
      → escalate t c now remote (status_of result) 1 e
        ≡ (reload_fax_policies t now (record e { db = (made now result e).1 })).1
  unfolding escalate upsert_auto_rule
  escalate-first now result e two three none_yet created =
      let a : leb (ecm_threshold c) 1 ≡ false = ground arith in
      let b : leb (v17_threshold c) 1 ≡ false = ground arith in
      rw (none_yet, upsert_auto_rule, created, a, b) refl

  -- The cache behind a first failure holds the learned rule.
  pub first_failure-cached :
      (now : ℕ) (result : Option FaxResult) (e : Engine t) (rules : List FaxPolicyRule)
      → (policy_enabled c && learning_enabled c && not (remote == "")) ≡ true
      → t38_threshold c ≡ 1
      → 2 ≤ ecm_threshold c
      → 2 ≤ v17_threshold c
      → t.find_auto remote t38_off both e.db ≡ none
      → (made now result e).0 ≡ true
      → t.find_all (made now result e).1 ≡ some rules
      → (k : ℕ) × (kept : List FaxPolicyRule) × ((learn_failure t c now remote result e).cache
          ≡ some kept)
        × Member (learned_rule c now remote (status_of result) k) kept
  unfolding learn_failure
  first_failure-cached now result e rules on one two three none_yet created listed =
      let db = (made now result e).1 in
      let (k, m) =
        lawful (learned_rule c now remote (status_of result) 0) e.db rules created listed in
      let w = learned_rule c now remote (status_of result) k in
      let stays : not (expired w now && is_auto w.origin) ≡ true =
        rw (not_expired c now now remote (status_of result) k (omega arith)) refl in
      (
        k,
        (prune t now rules db).0,
        rw (on, none_yet, one, escalate-first now result e two three none_yet created)
            (reload-cache t now (record e { db = db }) rules listed),
        rw (prune-keep t now rules db)
            (keep-Member (λ r. not (expired r now && is_auto r.origin)) w rules m stays),
      )

module _ (t : RuleTable) (lawful : CreateIsFound t) (f : Faxing) (remote : String) where
  -- With the engine and its learning enabled, a failure of a number that has no auto t38_off rule
  -- takes effect at once, for calls to and from the number, bridged or not: until the learned
  -- rule's time is over, some rule decides T.38, and T.38 is off unless a rule that allows it is
  -- the strongest. The thresholds are 1 failure for T.38 and more for the other rungs, as they are
  -- by default, and the database's two statements succeed.
  pub first_failure-resolve :
      (now later : ℕ) (result : Option FaxResult) (e : Engine t) (rules : List FaxPolicyRule)
      (src_num dst_num : String) (call_type : CallType)
      → (policy_enabled f.policy && learning_enabled f.policy && not (remote == "")) ≡ true
      → t38_threshold f.policy ≡ 1
      → 2 ≤ ecm_threshold f.policy
      → 2 ≤ v17_threshold f.policy
      → t.find_auto remote t38_off both e.db ≡ none
      → (t.create (learned_rule f.policy now remote (status_of result) 0) e.db).0 ≡ true
      → t.find_all (t.create (learned_rule f.policy now remote (status_of result) 0) e.db).1
        ≡ some rules
      → later ≤ now + auto_rule_ttl f.policy
      → (src_num ≡ remote) ⊎ (dst_num ≡ remote)
      → (kept : List FaxPolicyRule) × ((learn_failure t f.policy now remote result e).cache
          ≡ some kept)
        × ((resolved f kept src_num dst_num call_type later).t38_decided ≡ true)
        × (((resolved f kept src_num dst_num call_type later).enable_t38 ≡ false)
            ⊎ ((w : FaxPolicyRule) × IsStrongest speaks_of_t38 kept src_num dst_num call_type later
                  w
                × (w.effect ≡ t38_on)))
  first_failure-resolve now later result e rules src_num dst_num call_type on one two three none_yet
        created listed h side =
      let (k, kept, cached, m) =
        first_failure-cached t lawful f.policy remote now result e rules on one two three none_yet
          created listed in
      let (w, s) =
        IsStrongest-exists speaks_of_t38 kept src_num dst_num call_type later
          (learned_rule f.policy now remote (status_of result) k) m
          (learned_rule-matches f.policy now later remote (status_of result) k src_num dst_num
            call_type h side)
          refl in
      let d = resolve-strongest_t38 f kept src_num dst_num call_type later w (ground arith) s in
      let allowed : (allows_t38 w.effect ≡ false) ⊎ (w.effect ≡ t38_on) = allows-cases w.effect in
      (
        kept,
        cached,
        d.0,
        elim allowed [ inl no_t38 ↦ inl (d.1 ∙ no_t38) | inr on_rule ↦ inr (w, s, on_rule) ],
      )
