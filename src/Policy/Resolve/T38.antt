-- ===== src/Policy/Resolve/T38.antt =====
-- What ResolveFaxPolicy decides about T.38.
use gofaxserver.Prelude.{
  ℕ, String, ◌≡◌, refl, ap, ◌∙◌, ◌↔◌, inl, inr, Bool, true, false, ◌&&◌, not, none, some, List, [],
  ◌∷◌, arith, if◌then◌else◌, Bool-cases, Option-cases, is_empty, first_such, Member,
}
use gofaxserver.Prelude.Sort.{sort_stable}
use gofaxserver.Policy.Resolve.Order.{
  ranked-IsStrongest, ranked-none, IsStrongest, Outranks, ranked,
}
use gofaxserver.Policy.Rules.{
  rule_matches, effect_rank, goes_before, policy_enabled, CallType, Effect, t38_off, t38_on,
  softmodem_only, FaxPolicyRule,
}
use gofaxserver.Policy.Resolve.{
  rule_ids, matching, decide_policy, default_fax_policy, resolve_fax_policy, Faxing, FaxPolicy,
  apply_effect, apply_rules,
}

-- The effects that speak of T.38, and the one of them that allows it.
abbrev pub speaks : Effect → Bool
speaks t38_off = true
speaks t38_on = true
speaks softmodem_only = true
speaks _ = false

abbrev pub speaks_of_t38 : FaxPolicyRule → Bool
speaks_of_t38 r = speaks r.effect

abbrev pub allows_t38 : Effect → Bool
allows_t38 t38_on = true
allows_t38 _ = false

-- The fields about T.38.
pub record View : Type 0 where
  pub enable : Bool
  pub request : Bool
  pub decided : Bool
  pub only_softmodem : Bool

abbrev pub view : FaxPolicy → View
view p = record {
  enable = p.enable_t38;
  request = p.request_t38;
  decided = p.t38_decided;
  only_softmodem = p.softmodem_only;
}

abbrev is_softmodem_only : Effect → Bool
is_softmodem_only softmodem_only = true
is_softmodem_only _ = false

-- What a deciding rule leaves in those fields.
abbrev pub decided_by : Faxing → Effect → View
decided_by f e = record {
  enable = allows_t38 e;
  request = allows_t38 e && f.request_t38;
  decided = true;
  only_softmodem = is_softmodem_only e;
}

apply_effect-decided :
    (f : Faxing) (r : FaxPolicyRule) (e : Effect) (p : FaxPolicy)
    → p.t38_decided ≡ true
    → view (apply_effect f r e p) ≡ view p
unfolding apply_effect
apply_effect-decided f r t38_on p h = ground arith
apply_effect-decided f r e p h = ground arith

-- Once T.38 is decided, the rules behind do not change it.
apply_rules-decided :
    (f : Faxing) (rs : List FaxPolicyRule) (p : FaxPolicy)
    → p.t38_decided ≡ true
    → view (apply_rules f rs p) ≡ view p
unfolding apply_rules
apply_rules-decided f [] p h = refl
apply_rules-decided f (r ∷ rs) p h =
    let e = apply_effect-decided f r r.effect p h in
    apply_rules-decided f rs (apply_effect f r r.effect p) (ap (λ v. v.decided) e ∙ h) ∙ e

apply_effect-decides :
    (f : Faxing) (r : FaxPolicyRule) (p : FaxPolicy)
    → p.t38_decided ≡ false
    → p.softmodem_only ≡ false
    → speaks_of_t38 r ≡ true
    → view (apply_effect f r r.effect p) ≡ decided_by f r.effect
unfolding apply_effect
apply_effect-decides f r p h k t = ground arith

apply_effect-silent :
    (f : Faxing) (r : FaxPolicyRule) (p : FaxPolicy)
    → speaks_of_t38 r ≡ false
    → view (apply_effect f r r.effect p) ≡ view p
unfolding apply_effect
apply_effect-silent f r p t = ground arith

-- The first rule that speaks of T.38 decides.
pub apply_rules-first :
    (f : Faxing) (rs : List FaxPolicyRule) (p : FaxPolicy) (w : FaxPolicyRule)
    → p.t38_decided ≡ false
    → p.softmodem_only ≡ false
    → first_such speaks_of_t38 rs ≡ some w
    → view (apply_rules f rs p) ≡ decided_by f w.effect
unfolding apply_rules
apply_rules-first f [] p w h k e = cc
apply_rules-first f (r ∷ rs) p w h k e = elim (Bool-cases (speaks_of_t38 r)) [
  | inl t ↦
      let d = apply_effect-decides f r p h k t in
      let same : some r ≡ some w = rw t at e in
      let same' : r ≡ w = cc in
      apply_rules-decided f rs (apply_effect f r r.effect p) (ap (λ v. v.decided) d)
      ∙ d
      ∙ ap (λ (r : FaxPolicyRule). decided_by f r.effect) same'
  | inr t ↦
      let s = apply_effect-silent f r p t in
      apply_rules-first f rs (apply_effect f r r.effect p) w (ap (λ v. v.decided) s ∙ h)
        (ap (λ v. v.only_softmodem) s ∙ k) (rw t at e)
]

pub apply_rules-none :
    (f : Faxing) (rs : List FaxPolicyRule) (p : FaxPolicy)
    → first_such speaks_of_t38 rs ≡ none
    → view (apply_rules f rs p) ≡ view p
unfolding apply_rules
apply_rules-none f [] p e = refl
apply_rules-none f (r ∷ rs) p e = elim (Bool-cases (speaks_of_t38 r)) [
  | inl t ↦ let impossible : some r ≡ none = rw t at e in cc
  | inr t ↦
      apply_rules-none f rs (apply_effect f r r.effect p) (rw t at e) ∙ apply_effect-silent f r p t
]

equal_rank :
    (d e : Effect)
    → speaks d ≡ true
    → speaks e ≡ true
    → effect_rank d ≡ effect_rank e
    → allows_t38 d ≡ allows_t38 e
equal_rank d e td te h = ground arith

module _ (f : Faxing) (rules : List FaxPolicyRule) (src_num dst_num : String) (call_type : CallType)
    (now : ℕ) where
  abbrev pub resolved : FaxPolicy
  resolved = resolve_fax_policy f (some rules) src_num dst_num call_type now

  abbrev found : List FaxPolicyRule
  found = ranked rules src_num dst_num call_type now

  abbrev start : FaxPolicy
  start = record (default_fax_policy f) { applied_rule_ids = rule_ids found }

  -- The whole call as one run over the ranked rules.
  pub resolved-decide : policy_enabled f.policy ≡ true → resolved ≡ decide_policy f found
  unfolding resolve_fax_policy decide_policy apply_rules default_fax_policy sort_stable
  resolved-decide on = let go = go (matching rules src_num dst_num call_type now) in rw on go
    where
      go :
          (matches : List FaxPolicyRule)
          → (if is_empty matches
              then default_fax_policy f
              else decide_policy f (sort_stable goes_before matches))
            ≡ decide_policy f (sort_stable goes_before matches)
      go [] = ground arith
      go (r ∷ rs) = refl

  resolved-view : policy_enabled f.policy ≡ true → view resolved ≡ view (apply_rules f found start)
  unfolding decide_policy
  resolved-view on = ap view (resolved-decide on)

  forced_off :
      policy_enabled f.policy ≡ true
      → resolved.t38_forced_off ≡ resolved.t38_decided && not resolved.enable_t38
  unfolding decide_policy
  forced_off on = rw (resolved-decide on)

  Outranks-allows :
      (a b : FaxPolicyRule)
      → Outranks a b
      → Outranks b a
      → speaks_of_t38 a ≡ true
      → speaks_of_t38 b ≡ true
      → allows_t38 a.effect ≡ allows_t38 b.effect
  Outranks-allows a b h k ta tb = equal_rank a.effect b.effect ta tb (omega arith)

  -- With the engine enabled, T.38 is as the strongest of the matching rules that speak of it says:
  -- if several are equally strong, as each of them says. It is on just when that rule is t38_on,
  -- re-INVITEs are requested only then and only if the configuration requests them, and it counts
  -- as forced off otherwise.
  pub resolve-strongest_t38 :
      (w : FaxPolicyRule)
      → policy_enabled f.policy ≡ true
      → IsStrongest speaks_of_t38 rules src_num dst_num call_type now w
      → (resolved.t38_decided ≡ true)
        × (resolved.enable_t38 ≡ allows_t38 w.effect)
        × (resolved.request_t38 ≡ (allows_t38 w.effect && f.request_t38))
        × (resolved.t38_forced_off ≡ not (allows_t38 w.effect))
  unfolding default_fax_policy
  resolve-strongest_t38 w on s = elim (Option-cases (first_such speaks_of_t38 found)) [
    | inl nothing_found ↦
        let silent =
          ranked-none speaks_of_t38 rules src_num dst_num call_type now nothing_found w s.listed
            s.matches in
        let loud = s.passes in cc
    | inr (v, e) ↦
        let t = ranked-IsStrongest speaks_of_t38 rules src_num dst_num call_type now v e in
        let same =
          Outranks-allows v w (t.strongest w s.listed s.matches s.passes)
            (s.strongest v t.listed t.matches t.passes) t.passes s.passes in
        let u = resolved-view on ∙ apply_rules-first f found start v refl refl e in
        let d : resolved.t38_decided ≡ true = ap (λ x. x.decided) u in
        let a : resolved.enable_t38 ≡ allows_t38 w.effect = ap (λ x. x.enable) u ∙ same in
        (
          d,
          a,
          ap (λ x. x.request) u ∙ ap (λ b. b && f.request_t38) same,
          forced_off on ∙ ground arith,
        )
  ]

  -- With the engine enabled, no rule decides T.38 just when no matching rule speaks of it.
  pub resolve-undecided_iff :
      policy_enabled f.policy ≡ true
      → (resolved.t38_decided ≡ false) ↔ (
          (r : FaxPolicyRule)
          → Member r rules
          → rule_matches r src_num dst_num call_type now ≡ true
          → speaks_of_t38 r ≡ false)
  unfolding default_fax_policy
  resolve-undecided_iff on = elim (Option-cases (first_such speaks_of_t38 found)) [
    | inl nothing_found ↦ (
      (λ _. ranked-none speaks_of_t38 rules src_num dst_num call_type now nothing_found),
      (λ _. ap (λ x. x.decided) (resolved-view on ∙ apply_rules-none f found start nothing_found)),
    )
    | inr (v, e) ↦
        let t = ranked-IsStrongest speaks_of_t38 rules src_num dst_num call_type now v e in
        let u = resolved-view on ∙ apply_rules-first f found start v refl refl e in
        let d : resolved.t38_decided ≡ true = ap (λ x. x.decided) u in
        (
          (λ undecided. absurd (let no_rule = undecided in cc)),
          (λ silent. absurd (let q = silent v t.listed t.matches in let q' = t.passes in cc)),
        )
  ]
