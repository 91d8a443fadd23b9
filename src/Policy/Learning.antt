-- ===== src/Policy/Learning.antt =====
-- Learning of policy rules from call outcomes, and the reload of the rule cache
-- (gofaxserver/faxpolicy.go). The table fax_policy_rules of the database is a parameter: what its
-- queries return is in `RuleTable`. The calls of time.Now within one operation read one instant.
pub mod Table
pub mod Reload
pub mod Ladder
pub mod Healing
use gofaxserver.Prelude.{
  ℕ, ◌+◌, String, Bool, true, false, ◌&&◌, not, Option, none, some, List, [], ◌∷◌, ltb, leb,
  if◌then◌else◌, ◌==◌, Eq_nat, Eq_text,
}
use gofaxserver.Model.{FaxResult}
use gofaxserver.Policy.Rules.{
  Effect, t38_off, ecm_off, v17_off, AppliesTo, both, only, bridge, auto, dst, FaxPolicyRule,
  FaxPolicyConfig, policy_enabled, learning_enabled, bridge_learn_enabled, t38_threshold,
  ecm_threshold, v17_threshold, recovery_threshold, auto_rule_ttl, expired, is_auto,
}
use Table.{RuleTable}

abbrev pub status_of : Option FaxResult → String
status_of none = ""
status_of (some r) = r.t38_status

abbrev pub failures_after : Option FaxPolicyRule → ℕ
failures_after none = 1
failures_after (some r) = r.failure_count + 1

-- One more success on a rule.
abbrev pub credited : ℕ → FaxPolicyRule → FaxPolicyRule
credited now r = record r {
  success_count = r.success_count + 1;
  failure_count = 0;
  last_seen_at = some now;
}

module _ (t : RuleTable) where
  open t use {Db, find_all, find_auto, find_learned, save, create, delete_rule, delete_learned}

  -- The database and the atomic pointer faxPolicies.
  pub record Engine : Type 0 where
    pub db : Db
    pub cache : Option (List FaxPolicyRule)

  -- The loop of reloadFaxPolicies: expired auto rules are deleted, all others are kept.
  unfoldable pub prune : ℕ → List FaxPolicyRule → Db → List FaxPolicyRule × Db
  unfolding expired
  prune now [] db = ([], db)
  prune now (r ∷ rs) db =
      let dropped = prune now rs (delete_rule r.id db) in
      let (kept, db') = prune now rs db in
      if expired r now && is_auto r.origin then dropped else (r ∷ kept, db')

  -- reloadFaxPolicies; the Boolean tells whether it returned nil
  unfoldable pub reload_fax_policies : ℕ → Engine → Bool × Engine
  unfolding prune
  reload_fax_policies now e = elim (find_all e.db) [
    | none ↦ (false, e)
    | some rules ↦
        let (kept, db') = prune now rules e.db in (true, record { db = db'; cache = some kept })
  ]

  -- upsertAutoRule; the Boolean tells whether it returned no error
  unfoldable pub upsert_auto_rule :
      FaxPolicyConfig → ℕ → String → Effect → AppliesTo → String → ℕ → Db → Bool × Db
  unfolding auto_rule_ttl
  upsert_auto_rule c now remote effect applies_to t38_status failures db =
      elim (find_auto remote effect applies_to db) [
        | some existing ↦
            save
              (record existing {
                failure_count = failures;
                success_count = 0;
                enabled = true;
                expires_at = some (now + auto_rule_ttl c);
                last_seen_at = some now;
                last_t38_status = t38_status;
              })
              db
        | none ↦
            create
              (record {
                id = 0;
                scope = dst;
                src_number = "";
                dst_number = remote;
                effect = effect;
                applies_to = applies_to;
                origin = auto;
                enabled = true;
                expires_at = some (now + auto_rule_ttl c);
                var_name = "";
                var_value = "";
                failure_count = failures;
                success_count = 0;
                last_seen_at = some now;
                last_t38_status = t38_status;
                notes = "auto-learned from fax failures";
              })
              db
      ]

  -- A further rung of the ladder: an error is only logged.
  abbrev also_upsert : Bool → FaxPolicyConfig → ℕ → String → Effect → String → ℕ → Db → Db
  also_upsert false c now remote effect t38_status failures db = db
  also_upsert true c now remote effect t38_status failures db =
      (upsert_auto_rule c now remote effect both t38_status failures db).1

  -- The part of LearnFaxPolicyFailure behind its guards.
  unfoldable pub escalate : FaxPolicyConfig → ℕ → String → String → ℕ → Engine → Engine
  escalate c now remote t38_status failures e =
      let (done, db) = upsert_auto_rule c now remote t38_off both t38_status failures e.db in
      if done
      then (let db' =
            also_upsert (leb (ecm_threshold c) failures) c now remote ecm_off t38_status failures
              db in
          let db'' =
            also_upsert (leb (v17_threshold c) failures) c now remote v17_off t38_status failures
              db' in
          (reload_fax_policies now (record e { db = db'' })).1)
      else record e { db = db }

  -- LearnFaxPolicyFailure
  unfoldable pub learn_failure : FaxPolicyConfig → ℕ → String → Option FaxResult → Engine → Engine
  learn_failure c now remote result e =
      if policy_enabled c && learning_enabled c && not (remote == "")
      then (let failures = failures_after (find_auto remote t38_off both e.db) in
          if ltb failures (t38_threshold c)
          then e
          else escalate c now remote (status_of result) failures e)
      else e

  -- LearnFaxPolicyBridgeFailure
  unfoldable pub learn_bridge_failure : FaxPolicyConfig → ℕ → String → String → Engine → Engine
  unfolding upsert_auto_rule reload_fax_policies
  learn_bridge_failure c now remote cause e =
      if policy_enabled c && learning_enabled c && bridge_learn_enabled c && not (remote == "")
      then (let failures = failures_after (find_auto remote t38_off (only bridge) e.db) in
          let (done, db) =
            upsert_auto_rule c now remote t38_off (only bridge) cause failures e.db in
          if done then (reload_fax_policies now (record e { db = db })).1 else record e { db = db })
      else e

  -- The loop of LearnFaxPolicySuccess; a rule that reaches the threshold ends it.
  unfoldable pub credit_rules : FaxPolicyConfig → ℕ → String → List FaxPolicyRule → Db → Db
  unfolding recovery_threshold
  credit_rules c now remote [] db = db
  credit_rules c now remote (r ∷ rs) db =
      let rest = credit_rules c now remote rs (save (credited now r) db).1 in
      if leb (recovery_threshold c) (r.success_count + 1)
      then (delete_learned remote db).1
      else rest

  -- LearnFaxPolicySuccess
  unfoldable pub learn_success : FaxPolicyConfig → ℕ → String → Engine → Engine
  unfolding credit_rules reload_fax_policies
  learn_success c now remote e =
      if policy_enabled c && learning_enabled c && not (remote == "")
      then (elim (find_learned remote e.db) [
        | none ↦ e
        | some [] ↦ e
        | some (r ∷ rs) ↦
            (reload_fax_policies now (record e { db = credit_rules c now remote (r ∷ rs) e.db })).1
      ])
      else e
