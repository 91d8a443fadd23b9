-- ===== src/Policy/Resolve/Attributes.antt =====
-- What ResolveFaxPolicy decides about ECM, V.17 and the overrides of channel variables.
use gofaxserver.Prelude.{
  ℕ, String, ◌≡◌, ap, ◌∙◌, ◌↔◌, ◌⊎◌, inl, inr, Bool, true, false, ◌&&◌, Option, none, some, List,
  [], ◌∷◌, arith, eq_iff, if◌then◌else◌, ◌==◌, Eq_nat, Eq_text, Bool-cases, Option-cases, is_some,
  first_such, Member,
}
use gofaxserver.Policy.Resolve.T38.{resolved-decide, resolved}
use gofaxserver.Policy.Resolve.Order.{ranked-IsStrongest, IsStrongest, ranked-none, ranked}
use gofaxserver.Policy.Rules.{
  policy_enabled, rule_matches, CallType, effect_rank, Effect, ecm_off, ecm_on, v17_off,
  var_override, FaxPolicyRule,
}
use gofaxserver.Policy.Resolve.{
  rule_ids, default_fax_policy, decide_policy, Faxing, FaxPolicy, apply_effect, apply_rules,
  override_var, lookup_var,
}

abbrev pub effect_on_ecm : Effect → Bool
effect_on_ecm ecm_off = true
effect_on_ecm ecm_on = true
effect_on_ecm _ = false

abbrev pub speaks_of_ecm : FaxPolicyRule → Bool
speaks_of_ecm r = effect_on_ecm r.effect

abbrev pub allows_ecm : Effect → Bool
allows_ecm ecm_on = true
allows_ecm _ = false

abbrev effect_on_v17 : Effect → Bool
effect_on_v17 v17_off = true
effect_on_v17 _ = false

abbrev pub speaks_of_v17 : FaxPolicyRule → Bool
speaks_of_v17 r = effect_on_v17 r.effect

abbrev overrides_effect : Effect → Bool
overrides_effect var_override = true
overrides_effect _ = false

abbrev pub overrides : String → FaxPolicyRule → Bool
overrides n r = overrides_effect r.effect && r.var_name == n

-- A value that is set stays; otherwise the first rule that speaks sets it.
abbrev or_said : Option Bool → (Effect → Bool) → Option FaxPolicyRule → Option Bool
or_said (some b) say w = some b
or_said none say none = none
or_said none say (some w) = some (say w.effect)

apply_rules-ecm :
    (f : Faxing) (rs : List FaxPolicyRule) (p : FaxPolicy)
    → (apply_rules f rs p).use_ecm ≡ or_said p.use_ecm allows_ecm (first_such speaks_of_ecm rs)
unfolding apply_rules apply_effect
apply_rules-ecm f [] p = ground arith
apply_rules-ecm f (r ∷ rs) p = ground (arith, apply_rules-ecm f rs (apply_effect f r r.effect p))

abbrev disables : Effect → Bool
disables e = true

apply_rules-v17 :
    (f : Faxing) (rs : List FaxPolicyRule) (p : FaxPolicy)
    → (apply_rules f rs p).disable_v17
      ≡ or_said p.disable_v17 disables (first_such speaks_of_v17 rs)
unfolding apply_rules apply_effect
apply_rules-v17 f [] p = ground arith
apply_rules-v17 f (r ∷ rs) p = ground (arith, apply_rules-v17 f rs (apply_effect f r r.effect p))

abbrev or_value : Option String → Option FaxPolicyRule → Option String
or_value (some v) w = some v
or_value none none = none
or_value none (some w) = some w.var_value

lookup_var-override_var :
    (n : String) (r : FaxPolicyRule) (m : List (String × String))
    → lookup_var n (override_var r m) ≡ (elim (lookup_var n m) [
      | some v ↦ some v
      | none ↦ if r.var_name == n then some r.var_value else none
    ])
unfolding lookup_var override_var
lookup_var-override_var n r m = elim (Bool-cases (r.var_name == n)) [
  | inl same ↦ let e = (eq_iff r.var_name n).0 same in rw e (ground (arith, eq_iff n n))
  | inr other ↦ ground (arith, eq_iff r.var_name n)
]

apply_rules-var :
    (f : Faxing) (rs : List FaxPolicyRule) (p : FaxPolicy) (n : String)
    → lookup_var n (apply_rules f rs p).var_overrides
      ≡ or_value (lookup_var n p.var_overrides) (first_such (overrides n) rs)
unfolding apply_rules apply_effect
apply_rules-var f [] p n = ground arith
apply_rules-var f (r ∷ rs) p n = ground (
  arith,
  apply_rules-var f rs (apply_effect f r r.effect p) n,
  lookup_var-override_var n r p.var_overrides,
)

equal_ecm :
    (d e : Effect)
    → effect_on_ecm d ≡ true
    → effect_on_ecm e ≡ true
    → effect_rank d ≡ effect_rank e
    → allows_ecm d ≡ allows_ecm e
equal_ecm d e td te h = ground arith

module _ (f : Faxing) (rules : List FaxPolicyRule) (src_num dst_num : String) (call_type : CallType)
    (now : ℕ) where
  abbrev found : List FaxPolicyRule
  found = ranked rules src_num dst_num call_type now

  abbrev policy : FaxPolicy
  policy = resolved f rules src_num dst_num call_type now

  resolved-ecm :
      policy_enabled f.policy ≡ true
      → policy.use_ecm ≡ or_said none allows_ecm (first_such speaks_of_ecm found)
  unfolding decide_policy default_fax_policy
  resolved-ecm on =
      ap (λ (p : FaxPolicy). p.use_ecm) (resolved-decide f rules src_num dst_num call_type now on)
      ∙ apply_rules-ecm f found
          (record (default_fax_policy f) { applied_rule_ids = rule_ids found })

  resolved-v17 :
      policy_enabled f.policy ≡ true
      → policy.disable_v17 ≡ or_said none disables (first_such speaks_of_v17 found)
  unfolding decide_policy default_fax_policy
  resolved-v17 on =
      ap (λ (p : FaxPolicy). p.disable_v17)
        (resolved-decide f rules src_num dst_num call_type now on)
      ∙ apply_rules-v17 f found
          (record (default_fax_policy f) { applied_rule_ids = rule_ids found })

  resolved-var :
      (n : String)
      → policy_enabled f.policy ≡ true
      → lookup_var n policy.var_overrides ≡ or_value none (first_such (overrides n) found)
  unfolding decide_policy default_fax_policy lookup_var
  resolved-var n on =
      ap (λ (p : FaxPolicy). lookup_var n p.var_overrides)
        (resolved-decide f rules src_num dst_num call_type now on)
      ∙ apply_rules-var f found
          (record (default_fax_policy f) { applied_rule_ids = rule_ids found }) n

  unset :
      {T : Type 0} (test : FaxPolicyRule → Bool) (o : Option T)
      → (first_such test found ≡ none → o ≡ none)
      → ((v : FaxPolicyRule) → first_such test found ≡ some v → is_some o ≡ true)
      → (o ≡ none) ↔ (
          (r : FaxPolicyRule)
          → Member r rules
          → rule_matches r src_num dst_num call_type now ≡ true
          → test r ≡ false)
  unset test o absent present = elim (Option-cases (first_such test found)) [
    | inl e ↦ ((λ _. ranked-none test rules src_num dst_num call_type now e), (λ _. absent e))
    | inr (v, e) ↦
        let t = ranked-IsStrongest test rules src_num dst_num call_type now v e in
        let there = present v e in
        (
          (λ gone. absurd (let gone' = ap is_some gone in cc)),
          (λ silent. absurd (let q = silent v t.listed t.matches in let q' = t.passes in cc)),
        )
  ]

  -- With the engine enabled, ECM is set as the strongest of the matching rules that speak of ECM
  -- says: if several are equally strong, as each of them says.
  pub resolve-strongest_ecm :
      (w : FaxPolicyRule)
      → policy_enabled f.policy ≡ true
      → IsStrongest speaks_of_ecm rules src_num dst_num call_type now w
      → policy.use_ecm ≡ some (allows_ecm w.effect)
  resolve-strongest_ecm w on s = elim (Option-cases (first_such speaks_of_ecm found)) [
    | inl nothing_found ↦
        let silent =
          ranked-none speaks_of_ecm rules src_num dst_num call_type now nothing_found w s.listed
            s.matches in
        let loud = s.passes in cc
    | inr (v, e) ↦
        let t = ranked-IsStrongest speaks_of_ecm rules src_num dst_num call_type now v e in
        let first = t.strongest w s.listed s.matches s.passes in
        let second = s.strongest v t.listed t.matches t.passes in
        let same = equal_ecm v.effect w.effect t.passes s.passes (omega arith) in
        resolved-ecm on ∙ ap (or_said none allows_ecm) e ∙ ap some same
  ]

  -- With the engine enabled, the strongest rule that overrides a variable gives the variable's
  -- value, provided that no other matching rule of equal strength overrides it.
  pub resolve-strongest_var :
      (n : String) (w : FaxPolicyRule)
      → policy_enabled f.policy ≡ true
      → IsStrongest (overrides n) rules src_num dst_num call_type now w
      → ((r : FaxPolicyRule)
          → IsStrongest (overrides n) rules src_num dst_num call_type now r
          → r ≡ w)
      → lookup_var n policy.var_overrides ≡ some w.var_value
  resolve-strongest_var n w on s alone = elim (Option-cases (first_such (overrides n) found)) [
    | inl nothing_found ↦
        let silent =
          ranked-none (overrides n) rules src_num dst_num call_type now nothing_found w s.listed
            s.matches in
        let loud = s.passes in cc
    | inr (v, e) ↦
        let t = ranked-IsStrongest (overrides n) rules src_num dst_num call_type now v e in
        resolved-var n on
        ∙ ap (or_value none) e
        ∙ ap (λ (r : FaxPolicyRule). some r.var_value) (alone v t)
  ]

  -- With the engine enabled, what no matching rule speaks of stays unset, and only that: ECM, V.17
  -- and each channel variable; and V.17 is either unset or disabled.
  pub resolve-unset :
      (n : String)
      → policy_enabled f.policy ≡ true
      → ((policy.use_ecm ≡ none) ↔ (
          (r : FaxPolicyRule)
          → Member r rules
          → rule_matches r src_num dst_num call_type now ≡ true
          → speaks_of_ecm r ≡ false))
        × ((policy.disable_v17 ≡ none) ↔ (
            (r : FaxPolicyRule)
            → Member r rules
            → rule_matches r src_num dst_num call_type now ≡ true
            → speaks_of_v17 r ≡ false))
        × ((lookup_var n policy.var_overrides ≡ none) ↔ (
            (r : FaxPolicyRule)
            → Member r rules
            → rule_matches r src_num dst_num call_type now ≡ true
            → overrides n r ≡ false))
        × ((policy.disable_v17 ≡ none) ⊎ (policy.disable_v17 ≡ some true))
  resolve-unset n on = (
    unset speaks_of_ecm policy.use_ecm (λ e. resolved-ecm on ∙ ap (or_said none allows_ecm) e)
        (λ v e. ap is_some (resolved-ecm on ∙ ap (or_said none allows_ecm) e)),
    unset speaks_of_v17 policy.disable_v17 (λ e. resolved-v17 on ∙ ap (or_said none disables) e)
        (λ v e. ap is_some (resolved-v17 on ∙ ap (or_said none disables) e)),
    unset (overrides n) (lookup_var n policy.var_overrides)
        (λ e. resolved-var n on ∙ ap (or_value none) e)
        (λ v e. ap is_some (resolved-var n on ∙ ap (or_value none) e)),
    elim (Option-cases (first_such speaks_of_v17 found)) [
      | inl e ↦ inl (resolved-v17 on ∙ ap (or_said none disables) e)
      | inr (v, e) ↦ inr (resolved-v17 on ∙ ap (or_said none disables) e)
    ],
  )
