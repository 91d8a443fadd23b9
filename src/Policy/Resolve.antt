-- ===== src/Policy/Resolve.antt =====
-- ResolveFaxPolicy of gofaxserver/faxpolicy.go: the policy of one call from the cached rules.
pub mod Order
pub mod T38
pub mod Attributes
use gofaxserver.Prelude.{
  ℕ, String, Bool, true, false, ◌&&◌, not, Option, none, some, List, [], ◌∷◌, if◌then◌else◌, ◌==◌,
  Eq_nat, Eq_text, is_empty, keep,
}
use gofaxserver.Prelude.Sort.{sort_stable}
use gofaxserver.Policy.Rules.{
  CallType, Effect, t38_off, t38_on, ecm_off, ecm_on, v17_off, softmodem_only, var_override,
  unknown_effect, FaxPolicyRule, FaxPolicyConfig, policy_enabled, rule_matches, goes_before,
}

-- Config.Faxing, as far as the engine reads it
pub record Faxing : Type 0 where
  pub enable_t38 : Bool
  pub request_t38 : Bool
  pub policy : FaxPolicyConfig

pub record FaxPolicy : Type 0 where
  pub enable_t38 : Bool
  pub request_t38 : Bool
  pub use_ecm : Option Bool
  pub disable_v17 : Option Bool
  pub t38_decided : Bool
  pub t38_forced_off : Bool
  pub softmodem_only : Bool
  pub var_overrides : List (String × String)
  pub applied_rule_ids : List ℕ

unfoldable pub default_fax_policy : Faxing → FaxPolicy
default_fax_policy f = record {
  enable_t38 = f.enable_t38;
  request_t38 = f.request_t38;
  use_ecm = none;
  disable_v17 = none;
  t38_decided = false;
  t38_forced_off = false;
  softmodem_only = false;
  var_overrides = [];
  applied_rule_ids = [];
}

-- Reading the map VarOverrides.
unfoldable pub lookup_var : String → List (String × String) → Option String
lookup_var n [] = none
lookup_var n ((k, v) ∷ m) = let rest = lookup_var n m in if k == n then some v else rest

unfoldable pub override_var : FaxPolicyRule → List (String × String) → List (String × String)
unfolding lookup_var
override_var r m = elim (lookup_var r.var_name m) [
  | none ↦ (r.var_name, r.var_value) ∷ m
  | some _ ↦ m
]

abbrev pub or_first : Option Bool → Bool → Option Bool
or_first none b = some b
or_first (some a) b = some a

-- One round of the loop over the matches. The field `t38_decided` is the loop's local variable,
-- which the source copies into the policy behind the loop.
unfoldable pub apply_effect : Faxing → FaxPolicyRule → Effect → FaxPolicy → FaxPolicy
unfolding override_var
apply_effect f r var_override p = record p { var_overrides = override_var r p.var_overrides }
apply_effect f r softmodem_only p = if p.t38_decided then p else record p {
  t38_decided = true;
  softmodem_only = true;
  enable_t38 = false;
  request_t38 = false;
}
apply_effect f r t38_off p =
    if p.t38_decided
    then p
    else record p { t38_decided = true; enable_t38 = false; request_t38 = false }
apply_effect f r t38_on p =
    if p.t38_decided
    then p
    else record p { t38_decided = true; enable_t38 = true; request_t38 = f.request_t38 }
apply_effect f r ecm_off p = record p { use_ecm = or_first p.use_ecm false }
apply_effect f r ecm_on p = record p { use_ecm = or_first p.use_ecm true }
apply_effect f r v17_off p = record p { disable_v17 = or_first p.disable_v17 true }
apply_effect f r unknown_effect p = p

unfoldable pub apply_rules : Faxing → List FaxPolicyRule → FaxPolicy → FaxPolicy
unfolding apply_effect
apply_rules f [] p = p
apply_rules f (r ∷ rs) p = apply_rules f rs (apply_effect f r r.effect p)

unfoldable pub matching : List FaxPolicyRule → String → String → CallType → ℕ → List FaxPolicyRule
unfolding rule_matches
matching rules src_num dst_num call_type now =
    keep (λ r. rule_matches r src_num dst_num call_type now) rules

abbrev pub rule_ids : List FaxPolicyRule → List ℕ
rule_ids [] = []
rule_ids (r ∷ rs) = r.id ∷ rule_ids rs

-- From the collected matches to the policy.
unfoldable pub decide_policy : Faxing → List FaxPolicyRule → FaxPolicy
unfolding default_fax_policy apply_rules
decide_policy f sorted =
    let start = record (default_fax_policy f) { applied_rule_ids = rule_ids sorted } in
    let p = apply_rules f sorted start in
    record p { t38_forced_off = p.t38_decided && not p.enable_t38 }

-- `rules` is what the atomic pointer faxPolicies holds.
unfoldable pub resolve_fax_policy :
    Faxing → Option (List FaxPolicyRule) → String → String → CallType → ℕ → FaxPolicy
unfolding default_fax_policy matching sort_stable goes_before decide_policy
resolve_fax_policy f none src_num dst_num call_type now = default_fax_policy f
resolve_fax_policy f (some rules) src_num dst_num call_type now =
    if policy_enabled f.policy
    then (let matches = matching rules src_num dst_num call_type now in
        if is_empty matches
        then default_fax_policy f
        else decide_policy f (sort_stable goes_before matches))
    else default_fax_policy f
