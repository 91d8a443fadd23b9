-- ===== src/Tests/Policy.antt =====
-- The policy engine on concrete rules and calls.
use gofaxserver.Prelude.{
  ℕ, ◌+◌, ◌≤◌, ◌≡◌, refl, ◌⊎◌, inl, inr, true, false, Option, none, some, List, [], ◌∷◌, arith,
  first_such, All,
}
use gofaxserver.Policy.Learning.Healing.{learn_success-heals}
use gofaxserver.Policy.Learning.Table.{is_learned_for}
use gofaxserver.Prelude.Sort.{sort_stable}
use gofaxserver.Policy.Learning.Reload.{reload-resolve}
use gofaxserver.Policy.Resolve.T38.{resolved, speaks_of_t38, resolve-strongest_t38}
use gofaxserver.Policy.Resolve.Attributes.{speaks_of_ecm, overrides}
use gofaxserver.Tests.Table.{list_table-CreateIsFound, list_table-DeleteIsGone, list_table}
use gofaxserver.Policy.Learning.{learn_success, learn_failure, reload_fax_policies, Engine}
use gofaxserver.Policy.Resolve.Order.{ranked-IsStrongest, ranked, IsStrongest}
use gofaxserver.Policy.Learning.Ladder.{
  first_failure-resolve, learn_failures-stuck, learned_rule, learn_failures,
}
use gofaxserver.Model.{blank_result, FaxResult}
use gofaxserver.Policy.Resolve.{resolve_fax_policy, matching, Faxing}
use gofaxserver.Policy.Rules.{
  ecm_off, t38_on, bridge, var_override, manual, both, goes_before, t38_off, dst, softmodem,
  rule_matches, auto, Effect, recovery_threshold, auto_rule_ttl, v17_threshold, ecm_threshold,
  t38_threshold, FaxPolicyRule, Origin, FaxPolicyConfig,
}

abbrev config : FaxPolicyConfig
config = record {
  enabled = none;
  learn_enabled = none;
  t38_failure_threshold = 0;
  ecm_failure_threshold = 0;
  v17_failure_threshold = 0;
  recovery_successes = 0;
  auto_rule_ttl = none;
  pair_state_ttl = none;
  retry_chain_escalation = none;
  bridge_learn = none;
}

abbrev faxing : Faxing
faxing = record { enable_t38 = true; request_t38 = true; policy = config }

abbrev rule : ℕ → Origin → Effect → FaxPolicyRule
rule k origin effect = record {
  id = k;
  scope = dst;
  src_number = "";
  dst_number = "200";
  effect = effect;
  applies_to = both;
  origin = origin;
  enabled = true;
  expires_at = none;
  var_name = "fax_x";
  var_value = "1";
  failure_count = 1;
  success_count = 2;
  last_seen_at = none;
  last_t38_status = "";
  notes = "";
}

abbrev rules : List FaxPolicyRule
rules =
    rule 1 auto t38_off
    ∷ rule 2 manual t38_on
    ∷ rule 3 manual ecm_off
    ∷ rule 4 auto var_override
    ∷ []

decides_t38 :
    first_such speaks_of_t38 (ranked rules "100" "200" softmodem 5) ≡ some (rule 2 manual t38_on)
unfolding matching rule_matches goes_before sort_stable
decides_t38 = refl

decides_ecm :
    first_such speaks_of_ecm (ranked rules "100" "200" softmodem 5) ≡ some (rule 3 manual ecm_off)
unfolding matching rule_matches goes_before sort_stable
decides_ecm = refl

decides_var :
    first_such (overrides "fax_x") (ranked rules "100" "200" softmodem 5)
    ≡ some (rule 4 auto var_override)
unfolding matching rule_matches goes_before sort_stable
decides_var = refl

alone :
    (r : FaxPolicyRule)
    → IsStrongest (overrides "fax_x") rules "100" "200" softmodem 5 r
    → r ≡ rule 4 auto var_override
alone r s = elim s.listed [
  | inl e ↦ absurd (let p : overrides "fax_x" r ≡ true = s.passes in let q = rw e at p in cc)
  | inr (inl e) ↦ absurd (let p : overrides "fax_x" r ≡ true = s.passes in let q = rw e at p in cc)
  | inr (inr (inl e)) ↦
      absurd (let p : overrides "fax_x" r ≡ true = s.passes in let q = rw e at p in cc)
  | inr (inr (inr (inl e))) ↦ e
  | inr (inr (inr (inr impossible))) ↦ absurd impossible
]

resolve-strongest_t38_example :
    let p = resolve_fax_policy faxing (some rules) "100" "200" softmodem 5 in
    (p.t38_decided ≡ true)
    × (p.enable_t38 ≡ true)
    × (p.request_t38 ≡ true)
    × (p.t38_forced_off ≡ false)
resolve-strongest_t38_example =
    resolve-strongest_t38 faxing rules "100" "200" softmodem 5 (rule 2 manual t38_on) refl (
      ranked-IsStrongest speaks_of_t38 rules "100" "200" softmodem 5 (rule 2 manual t38_on)
        decides_t38)

abbrev failed : Option FaxResult
failed = some (record blank_result { negotiate_count = 2 })

abbrev engine : List FaxPolicyRule → Engine list_table
engine db = record { db = db; cache = none }

reload-resolve_example :
    resolve_fax_policy faxing
      (reload_fax_policies list_table 3 (engine rules)).1.cache
      "100"
      "200"
      softmodem
      5
    ≡ resolve_fax_policy faxing (some rules) "100" "200" softmodem 5
reload-resolve_example =
    reload-resolve list_table faxing 3 5 (engine rules) rules "100" "200" softmodem refl
      (omega arith)

abbrev patient : FaxPolicyConfig
patient = record config { t38_failure_threshold = 2 }

two_or_more : 2 ≤ t38_threshold patient
unfolding t38_threshold
two_or_more = omega arith

learn_failures-stuck_example :
    learn_failures list_table patient "200"
      ((1, failed) ∷ (2, failed) ∷ (3, failed) ∷ [])
      (engine [])
    ≡ engine []
learn_failures-stuck_example =
    learn_failures-stuck list_table patient "200" ((1, failed) ∷ (2, failed) ∷ (3, failed) ∷ [])
      (engine []) two_or_more refl

one_failure : t38_threshold config ≡ 1
unfolding t38_threshold
one_failure = refl

more_ecm : 2 ≤ ecm_threshold config
unfolding ecm_threshold
more_ecm = omega arith

more_v17 : 2 ≤ v17_threshold config
unfolding v17_threshold
more_v17 = omega arith

still_valid : 50 ≤ 1 + auto_rule_ttl config
unfolding auto_rule_ttl
still_valid = omega arith

abbrev learned : FaxPolicyRule
learned = learned_rule config 1 "200" "" 1

first_failure-resolve_example :
    (kept : List FaxPolicyRule) × ((learn_failure list_table config 1 "200" failed
        (engine [])).cache
      ≡ some kept)
    × ((resolved faxing kept "100" "200" bridge 50).t38_decided ≡ true)
    × (((resolved faxing kept "100" "200" bridge 50).enable_t38 ≡ false)
        ⊎ ((w : FaxPolicyRule) × IsStrongest speaks_of_t38 kept "100" "200" bridge 50 w
            × (w.effect ≡ t38_on)))
first_failure-resolve_example =
    first_failure-resolve list_table list_table-CreateIsFound faxing "200" 1 50 failed (engine [])
      (learned ∷ []) "100" "200" bridge refl one_failure more_ecm more_v17 refl refl refl
      still_valid (inr refl)

healed : recovery_threshold config ≤ 3
unfolding recovery_threshold
healed = omega arith

learn_success-heals_example :
    (kept : List FaxPolicyRule) × ((learn_success list_table config 7 "200"
        (engine (rule 1 auto t38_off ∷ []))).cache
      ≡ some kept)
    × All (λ r. is_learned_for "200" r ≡ false) kept
learn_success-heals_example =
    learn_success-heals list_table list_table-DeleteIsGone config "200" 7
      (engine (rule 1 auto t38_off ∷ [])) (rule 1 auto t38_off ∷ []) refl refl
      (rule 1 auto t38_off, inl refl, healed) (λ d. refl) (λ d. (d, refl))
