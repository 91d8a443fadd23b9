-- ===== src/Policy/Signature.antt =====
-- Which call outcomes the policy engine learns from, and the escalation within one job
-- (gofaxserver/faxpolicy.go).
use gofaxserver.Prelude.{
  ℕ, ◌+◌, ◌≤◌, String, ◌≡◌, ◌↔◌, ◌⊎◌, inl, inr, Bool, true, false, ◌&&◌, ◌||◌, not, Option, none,
  some, List, [], ◌∷◌, arith, ltb, leb, if◌then◌else◌, ◌==◌, Eq_nat, Eq_text, Bool-cases, is_empty,
}
use gofaxserver.Model.{FaxResult, FaxJob}
use gofaxserver.Prelude.Text.{equal_codes, codes, trim_space, to_upper}
use gofaxserver.Policy.Rules.{FaxPolicyConfig, retry_chain_enabled}

-- learnResultBadRows, the sum over the page results
unfoldable pub sum_bad_rows : List ℕ → ℕ → ℕ
sum_bad_rows [] acc = acc
sum_bad_rows (n ∷ ns) acc = sum_bad_rows ns (acc + n)

-- T38Refused
unfoldable pub t38_refused : Option FaxResult → Bool
unfolding trim_space equal_codes
t38_refused none = false
t38_refused (some r) =
    let st = trim_space r.t38_status in
    not (is_empty st) && not (equal_codes st (codes "negotiated"))

-- qualifiesForLearning
unfoldable pub qualifies_for_learning : Option FaxResult → Bool
unfolding sum_bad_rows t38_refused
qualifies_for_learning none = false
qualifies_for_learning (some r) =
    if r.success
    then false
    else (ltb 1 r.negotiate_count || ltb 0 (sum_bad_rows r.page_bad_rows 0) || t38_refused (some r))

abbrev upper : List ℕ → List ℕ
upper [] = []
upper (c ∷ s) = to_upper c ∷ upper s

abbrev same_codes : List ℕ → List ℕ → Bool
same_codes [] [] = true
same_codes (a ∷ s) (b ∷ t) = a == b && same_codes s t
same_codes _ _ = false

-- isT38NegotiationHangup
unfoldable pub is_t38_negotiation_hangup : String → Bool
unfolding trim_space to_upper
is_t38_negotiation_hangup cause =
    let c = upper (trim_space cause) in
    same_codes c (codes "INCOMPATIBLE_DESTINATION")
    || same_codes c (codes "NOT_ACCEPTABLE_HERE")
    || same_codes c (codes "MEDIA_NEGOTIATION_FAILED")
    || same_codes c (codes "BEARERCAPABILITY_NOTAVAIL")
    || same_codes c (codes "BEARERCAPABILITY_NOTIMPL")
    || same_codes c (codes "FACILITY_REJECTED")

-- The test of escalateRetryChain on the result of the previous attempt.
unfoldable pub shows_t38_trouble : Option FaxResult → Bool
shows_t38_trouble none = false
shows_t38_trouble (some r) =
    if r.success then false else (ltb 1 r.negotiate_count || t38_refused (some r))

-- escalateRetryChain; the attempt -1 of a single shot is below 2, as 0 is.
unfoldable pub escalate_retry_chain : FaxPolicyConfig → ℕ → FaxJob → FaxJob
escalate_retry_chain c attempt job =
    if leb attempt 1 || not (retry_chain_enabled c) || job.force_t38_off
    then job
    else if shows_t38_trouble job.result
    then record job { force_t38_off = true }
    else job

-- A failed result that renegotiated more than once or refused T.38.
abbrev pub Trouble : Option FaxResult → Type 0
Trouble none = ⊥
Trouble (some r) = (r.success ≡ false) × ((2 ≤ r.negotiate_count) ⊎ (t38_refused (some r) ≡ true))

shows_t38_trouble_iff : (o : Option FaxResult) → (shows_t38_trouble o ≡ true) ↔ Trouble o
unfolding shows_t38_trouble
shows_t38_trouble_iff none = ground arith
shows_t38_trouble_iff (some r) = ground arith

-- After escalateRetryChain T.38 is forced off just when it was before, or the attempt is not the
-- first, the escalation is enabled, and the previous result is a failure that renegotiated more
-- than once or refused T.38; it changes no other field.
pub escalate_retry_chain_iff :
    (c : FaxPolicyConfig) (attempt : ℕ) (job : FaxJob)
    → (((escalate_retry_chain c attempt job).force_t38_off ≡ true) ↔ (
        (job.force_t38_off ≡ true)
        ⊎ ((2 ≤ attempt) × (retry_chain_enabled c ≡ true) × Trouble job.result)))
      × (record (escalate_retry_chain c attempt job) { force_t38_off = job.force_t38_off } ≡ job)
unfolding escalate_retry_chain
escalate_retry_chain_iff c attempt job =
    let (there, back) = shows_t38_trouble_iff job.result in
    (
      elim (Bool-cases (shows_t38_trouble job.result)) [
        | inl t ↦ (λ h. ground (arith, there t), λ h. ground arith)
        | inr f ↦ (
          λ h. ground arith,
          λ h. elim h [
            | inl old ↦ ground arith
            | inr (_, _, trouble) ↦ absurd (let t = back trouble in cc)
          ],
        )
      ],
      ground arith,
    )
