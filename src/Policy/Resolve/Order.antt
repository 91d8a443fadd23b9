-- ===== src/Policy/Resolve/Order.antt =====
-- The order in which rules are looked at is the order of a number.
use gofaxserver.Prelude.{
  ℕ, ◌+◌, ◌*◌, ◌≤◌, ◌<◌, String, ◌≡◌, sym, ◌∙◌, ◌⊎◌, inl, inr, Bool, true, false, none, some, List,
  arith, ltb, if◌then◌else◌, ltb→lt, ◌==◌, Eq_nat, Eq_text, Option-cases, first_such, Member,
}
use gofaxserver.Prelude.Sort.{
  sort_stable, first_such-some, first_such-none, first_such-le, Member-sort_stable,
  sort_stable-Member, sort_stable-IsSorted, Member-keep, keep-Member,
}
use gofaxserver.Policy.Resolve.{matching}
use gofaxserver.Policy.Rules.{
  CallType, rule_matches, FaxPolicyRule, Effect, Origin, scope_rank, origin_rank, effect_rank,
  goes_before,
}

abbrev pub rule_key : FaxPolicyRule → ℕ
rule_key r = 4 * scope_rank r.scope + 2 * origin_rank r.origin + effect_rank r.effect

origin_rank_le : (o : Origin) → origin_rank o ≤ 1
origin_rank_le o = ground arith

effect_rank_le : (e : Effect) → effect_rank e ≤ 1
effect_rank_le e = ground arith

lex_key :
    (s t o p e f : ℕ)
    → o ≤ 1
    → p ≤ 1
    → e ≤ 1
    → f ≤ 1
    → (if s == t then (if o == p then ltb e f else ltb o p) else ltb s t)
      ≡ ltb (4 * s + 2 * o + e) (4 * t + 2 * p + f)
lex_key s t o p e f ho hp he hf = ground arith

pub goes_before-key : (a b : FaxPolicyRule) → goes_before a b ≡ ltb (rule_key a) (rule_key b)
unfolding goes_before
goes_before-key a b =
    lex_key (scope_rank a.scope) (scope_rank b.scope) (origin_rank a.origin) (origin_rank b.origin)
      (effect_rank a.effect) (effect_rank b.effect) (origin_rank_le a.origin)
      (origin_rank_le b.origin) (effect_rank_le a.effect) (effect_rank_le b.effect)

abbrev KeyLe : FaxPolicyRule → FaxPolicyRule → Type 0
KeyLe a b = rule_key a ≤ rule_key b

key_before : (a b : FaxPolicyRule) → goes_before a b ≡ true → KeyLe a b
key_before a b h =
    let less = ltb→lt (rule_key a) (rule_key b) (sym (goes_before-key a b) ∙ h) in omega arith

ltb-false : (a b : ℕ) → ltb a b ≡ false → b ≤ a
ltb-false a b h = ground arith

key_after : (a b : FaxPolicyRule) → goes_before a b ≡ false → KeyLe b a
key_after a b h = ltb-false (rule_key a) (rule_key b) (sym (goes_before-key a b) ∙ h)

-- `a` is at least as strong as `b`: a narrower scope, or the same scope and a stronger origin, or
-- both the same and an effect that is at least as restrictive.
abbrev pub Outranks : FaxPolicyRule → FaxPolicyRule → Type 0
Outranks a b =
    (scope_rank a.scope < scope_rank b.scope)
    ⊎ ((scope_rank a.scope ≡ scope_rank b.scope)
        × ((origin_rank a.origin < origin_rank b.origin)
            ⊎ ((origin_rank a.origin ≡ origin_rank b.origin)
                × (effect_rank a.effect ≤ effect_rank b.effect))))

lex_le :
    (s t o p e f : ℕ)
    → o ≤ 1
    → p ≤ 1
    → e ≤ 1
    → f ≤ 1
    → 4 * s + 2 * o + e ≤ 4 * t + 2 * p + f
    → (s < t) ⊎ ((s ≡ t) × ((o < p) ⊎ ((o ≡ p) × (e ≤ f))))
lex_le s t o p e f ho hp he hf h = grind arith

pub Outranks-of_key : (a b : FaxPolicyRule) → rule_key a ≤ rule_key b → Outranks a b
Outranks-of_key a b h =
    lex_le (scope_rank a.scope) (scope_rank b.scope) (origin_rank a.origin) (origin_rank b.origin)
      (effect_rank a.effect) (effect_rank b.effect) (origin_rank_le a.origin)
      (origin_rank_le b.origin) (effect_rank_le a.effect) (effect_rank_le b.effect) h

-- The matching rules in the order in which they are looked at.
abbrev pub ranked : List FaxPolicyRule → String → String → CallType → ℕ → List FaxPolicyRule
ranked rules src_num dst_num call_type now =
    sort_stable goes_before (matching rules src_num dst_num call_type now)

-- A rule that no other matching rule with its property outranks.
pub record IsStrongest (test : FaxPolicyRule → Bool) (rules : List FaxPolicyRule)
    (src_num dst_num : String) (call_type : CallType) (now : ℕ) (w : FaxPolicyRule) : Type 0 where
  pub listed : Member w rules
  pub matches : rule_matches w src_num dst_num call_type now ≡ true
  pub passes : test w ≡ true
  pub strongest :
      (r : FaxPolicyRule)
      → Member r rules
      → rule_matches r src_num dst_num call_type now ≡ true
      → test r ≡ true
      → Outranks w r

module _ (test : FaxPolicyRule → Bool) (rules : List FaxPolicyRule) (src_num dst_num : String)
    (call_type : CallType) (now : ℕ) where
  -- The first in the order of looking is the strongest.
  pub ranked-IsStrongest :
      (w : FaxPolicyRule)
      → first_such test (ranked rules src_num dst_num call_type now) ≡ some w
      → IsStrongest test rules src_num dst_num call_type now w
  unfolding matching
  ranked-IsStrongest w e =
      let matches = matching rules src_num dst_num call_type now in
      let (m, t) = first_such-some test (sort_stable goes_before matches) w e in
      let in_matches = Member-sort_stable goes_before w matches m in
      let (m', t') =
        Member-keep (λ r. rule_matches r src_num dst_num call_type now) w rules in_matches in
      record {
        listed = m';
        matches = t';
        passes = t;
        strongest = λ r mr tr pr. Outranks-of_key w r (
            first_such-le test KeyLe (λ a. omega arith) (sort_stable goes_before matches) w r
              (sort_stable-IsSorted KeyLe goes_before key_before key_after
                (λ a b c h k. omega arith) matches)
              e
              (sort_stable-Member goes_before r matches
                (keep-Member (λ r. rule_matches r src_num dst_num call_type now) r rules mr tr))
              pr);
      }

  -- None is found only if no rule qualifies.
  pub ranked-none :
      first_such test (ranked rules src_num dst_num call_type now) ≡ none
      → (r : FaxPolicyRule) → Member r rules
      → rule_matches r src_num dst_num call_type now ≡ true
      → test r ≡ false
  unfolding matching
  ranked-none e r m t =
      let matches = matching rules src_num dst_num call_type now in
      first_such-none test (sort_stable goes_before matches) e r (
        sort_stable-Member goes_before r matches
          (keep-Member (λ r. rule_matches r src_num dst_num call_type now) r rules m t))

  -- Where some rule qualifies, one of them is the strongest.
  pub IsStrongest-exists :
      (r : FaxPolicyRule)
      → Member r rules
      → rule_matches r src_num dst_num call_type now ≡ true
      → test r ≡ true
      → (w : FaxPolicyRule) × IsStrongest test rules src_num dst_num call_type now w
  IsStrongest-exists r m t p =
      elim (Option-cases (first_such test (ranked rules src_num dst_num call_type now))) [
        | inl e ↦ absurd (let q = ranked-none e r m t in cc)
        | inr (w, e) ↦ (w, ranked-IsStrongest w e)
      ]
