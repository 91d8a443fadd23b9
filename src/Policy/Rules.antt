-- ===== src/Policy/Rules.antt =====
-- Policy rules and when they match a call (gofaxserver/faxpolicy.go), and the settings of the
-- engine (FaxPolicyConfig in gofaxlib/config.go). A column that holds one of a few words is a data
-- type, whose last constructor stands for every other word.
use gofaxserver.Prelude.{
  ℕ, String, Bool, true, false, ◌&&◌, Option, none, some, ltb, if◌then◌else◌, ◌==◌, Eq_nat, Eq_text,
}

pub data CallType : Type 0 where
  softmodem bridge : CallType

pub data Scope : Type 0 where
  dst src pair unknown_scope : Scope

pub data Effect : Type 0 where
  t38_off t38_on ecm_off ecm_on v17_off softmodem_only var_override unknown_effect : Effect

pub data Origin : Type 0 where
  manual auto unknown_origin : Origin

-- "", "both", the two call types, and any other text.
pub data AppliesTo : Type 0 where
  unset both nothing : AppliesTo
  only : CallType → AppliesTo

pub record FaxPolicyRule : Type 0 where
  pub id : ℕ
  pub scope : Scope
  pub src_number : String
  pub dst_number : String
  pub effect : Effect
  pub applies_to : AppliesTo
  pub origin : Origin
  pub enabled : Bool
  pub expires_at : Option ℕ
  pub var_name : String
  pub var_value : String
  pub failure_count : ℕ
  pub success_count : ℕ
  pub last_seen_at : Option ℕ
  pub last_t38_status : String
  pub notes : String

-- A Boolean pointer is an option, a duration text is what time.ParseDuration makes of it (nothing
-- on an error), and an integer setting that is not positive is 0.
pub record FaxPolicyConfig : Type 0 where
  pub enabled : Option Bool
  pub learn_enabled : Option Bool
  pub t38_failure_threshold : ℕ
  pub ecm_failure_threshold : ℕ
  pub v17_failure_threshold : ℕ
  pub recovery_successes : ℕ
  pub auto_rule_ttl : Option ℕ
  pub pair_state_ttl : Option ℕ
  pub retry_chain_escalation : Option Bool
  pub bridge_learn : Option Bool

abbrev pub bool_or_default : Option Bool → Bool → Bool
bool_or_default none d = d
bool_or_default (some b) d = b

module _ (c : FaxPolicyConfig) where
  abbrev pub policy_enabled : Bool
  policy_enabled = bool_or_default c.enabled true

  abbrev pub learning_enabled : Bool
  learning_enabled = bool_or_default c.learn_enabled true

  abbrev pub retry_chain_enabled : Bool
  retry_chain_enabled = bool_or_default c.retry_chain_escalation true

  abbrev pub bridge_learn_enabled : Bool
  bridge_learn_enabled = bool_or_default c.bridge_learn true

  unfoldable pub t38_threshold : ℕ
  t38_threshold = if ltb 0 c.t38_failure_threshold then c.t38_failure_threshold else 1

  unfoldable pub ecm_threshold : ℕ
  ecm_threshold = if ltb 0 c.ecm_failure_threshold then c.ecm_failure_threshold else 2

  unfoldable pub v17_threshold : ℕ
  v17_threshold = if ltb 0 c.v17_failure_threshold then c.v17_failure_threshold else 3

  unfoldable pub recovery_threshold : ℕ
  recovery_threshold = if ltb 0 c.recovery_successes then c.recovery_successes else 3

-- `d` where it parsed and is positive
abbrev pub positive_or : Option ℕ → ℕ → ℕ
positive_or none d = d
positive_or (some t) d = if ltb 0 t then t else d

-- 720 hours and 15 minutes, in nanoseconds
unfoldable pub auto_rule_ttl : FaxPolicyConfig → ℕ
auto_rule_ttl c = positive_or c.auto_rule_ttl 2_592_000_000_000_000

unfoldable pub pair_state_ttl : FaxPolicyConfig → ℕ
pair_state_ttl c = positive_or c.pair_state_ttl 900_000_000_000

abbrev pub scope_rank : Scope → ℕ
scope_rank pair = 0
scope_rank dst = 1
scope_rank _ = 2

abbrev pub origin_rank : Origin → ℕ
origin_rank manual = 0
origin_rank _ = 1

abbrev pub effect_rank : Effect → ℕ
effect_rank t38_on = 1
effect_rank ecm_on = 1
effect_rank _ = 0

abbrev pub is_auto : Origin → Bool
is_auto auto = true
is_auto _ = false

abbrev pub same_call_type : CallType → CallType → Bool
same_call_type softmodem softmodem = true
same_call_type bridge bridge = true
same_call_type _ _ = false

abbrev pub applies : AppliesTo → CallType → Bool
applies unset c = true
applies both c = true
applies (only d) c = same_call_type d c
applies nothing c = false

-- r.ExpiresAt != nil && now.After(*r.ExpiresAt)
unfoldable pub expired : FaxPolicyRule → ℕ → Bool
expired r now = elim r.expires_at [ none ↦ false | some t ↦ ltb t now ]

unfoldable pub scope_matches : Scope → FaxPolicyRule → String → String → Bool
scope_matches pair r src_num dst_num = r.src_number == src_num && r.dst_number == dst_num
scope_matches dst r src_num dst_num =
    if r.dst_number == dst_num then true else (is_auto r.origin && r.dst_number == src_num)
scope_matches src r src_num dst_num = r.src_number == src_num
scope_matches unknown_scope r src_num dst_num = false

unfoldable pub rule_matches : FaxPolicyRule → String → String → CallType → ℕ → Bool
unfolding expired scope_matches
rule_matches r src_num dst_num call_type now =
    if r.enabled
    then (if expired r now
        then false
        else if applies r.applies_to call_type
        then scope_matches r.scope r src_num dst_num
        else false)
    else false

-- The order in which matching rules are looked at: the function given to sort.SliceStable.
unfoldable pub goes_before : FaxPolicyRule → FaxPolicyRule → Bool
goes_before a b =
    if scope_rank a.scope == scope_rank b.scope
    then (if origin_rank a.origin == origin_rank b.origin
        then ltb (effect_rank a.effect) (effect_rank b.effect)
        else ltb (origin_rank a.origin) (origin_rank b.origin))
    else ltb (scope_rank a.scope) (scope_rank b.scope)
