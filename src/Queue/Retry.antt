-- ===== src/Queue/Retry.antt =====
-- retryWithBackoff of gofaxserver/queue.go. The context is context.Background(), which is never
-- done. `random n` is rand.Int63n(n), and `pause d` marks the job as waiting and sleeps for d.
use gofaxserver.Prelude.{
  ℕ, zero, suc, ◌+◌, ◌-◌, ◌*◌, ◌/◌, ◌≤◌, ◌≡◌, refl, sym, ap, ◌∙◌, inl, inr, Bool, true, false, ◌||◌,
  not, List, [], ◌∷◌, ◌++◌, arith, if◌then◌else◌, ◌==◌, Eq_nat, Eq_text, Bool-cases,
}
use Prim.Native.Nat.{min}
use mathlib.Core.List.{append-nil, append_assoc}

-- delay + jitter of at most a tenth either way, capped
unfoldable pub sleep_time : ℕ → ℕ → ℕ → ℕ
sleep_time max_delay delay r = min (delay + r - delay / 10) max_delay

unfoldable pub next_delay : ℕ → ℕ → ℕ
next_delay max_delay delay = min (delay * 2) max_delay

module _ {S : Type 0} (fn : ℕ → S → (Bool × Bool) × S) (random : ℕ → S → ℕ × S) (pause : ℕ → S → S)
    (max_attempts max_delay : ℕ) where
  -- `left` counts the rounds of the loop that are left.
  unfoldable pub retry_from : ℕ → ℕ → ℕ → S → Bool × S
  unfolding sleep_time next_delay
  retry_from zero attempt delay s = (false, s)
  retry_from (suc left) attempt delay s =
      let ((ok, retriable), s1) = fn attempt s in
      let again =
        (let (r, s2) = random (delay / 5) s1 in
          retry_from left (attempt + 1) (next_delay max_delay delay)
            (pause (sleep_time max_delay delay r) s2)) in
      if ok
      then (true, s1)
      else if not retriable || attempt == max_attempts
      then (false, s1)
      else again

  unfoldable pub retry_with_backoff : ℕ → S → Bool × S
  unfolding retry_from
  retry_with_backoff base s = retry_from max_attempts 1 base s

-- The outcomes of the attempts of one call, each whether it succeeded and whether a failure may be
-- tried again: at most `n` of them, of which none but the last succeeded or was final, and the last
-- succeeded, or was final, or was the last that is allowed.
abbrev pub Tried : ℕ → List (Bool × Bool) → Bool → Type 0
Tried zero tries r = (tries ≡ []) × (r ≡ false)
Tried (suc n) [] r = ⊥
Tried (suc n) ((true, again) ∷ rest) r = (rest ≡ []) × (r ≡ true)
Tried (suc n) ((false, false) ∷ rest) r = (rest ≡ []) × (r ≡ false)
Tried (suc n) ((false, true) ∷ rest) r = Tried n rest r

Tried-none : (n : ℕ) → n ≡ 0 → Tried n [] false
Tried-none zero h = (refl, refl)
Tried-none (suc n) h = absurd (omega arith)

sleep_time-le : (max_delay delay r : ℕ) → sleep_time max_delay delay r ≤ max_delay
unfolding sleep_time
sleep_time-le max_delay delay r = omega arith

module _ {S : Type 0} (fn : ℕ → S → (Bool × Bool) × S) (random : ℕ → S → ℕ × S) (pause : ℕ → S → S)
    (max_attempts max_delay : ℕ) where
  abbrev run_from : ℕ → ℕ → ℕ → S → Bool × S
  run_from = retry_from fn random pause max_attempts max_delay

  abbrev pub run_all : ℕ → S → Bool × S
  run_all = retry_with_backoff fn random pause max_attempts max_delay

  module _ (log : S → List (Bool × Bool))
      (logs : (a : ℕ) (s : S) → log (fn a s).1 ≡ log s ++ (fn a s).0 ∷ [])
      (quiet : (n : ℕ) (s : S) → log (random n s).1 ≡ log s)
      (still : (d : ℕ) (s : S) → log (pause d s) ≡ log s) where
    retry_from-Tried :
        (left attempt delay : ℕ) (s : S)
        → attempt + left ≡ max_attempts + 1
        → (tries : List (Bool × Bool)) × (log (run_from left attempt delay s).1 ≡ log s ++ tries)
          × Tried left tries (run_from left attempt delay s).0
    unfolding retry_from
    retry_from-Tried zero attempt delay s h = ([], sym (append-nil (log s)), (refl, refl))
    retry_from-Tried (suc left) attempt delay s h =
        let out = fn attempt s in
        let logged = logs attempt s in
        elim (Bool-cases out.0.0) [
          | inl ok ↦ (out.0 ∷ [], rw ok (rw ok at logged), rw ok (refl, refl))
          | inr bad ↦ elim (Bool-cases out.0.1) [
            | inr final ↦ (
              out.0 ∷ [],
              rw (bad, final) (rw (bad, final) at logged),
              rw (bad, final) (refl, refl),
            )
            | inl again ↦ elim (Bool-cases (attempt == max_attempts)) [
              | inl last ↦ (
                out.0 ∷ [],
                rw (bad, again, last) (rw (bad, again) at logged),
                rw (bad, again, last) (Tried-none left (ground arith)),
              )
              | inr more ↦
                  let drawn = random (delay / 5) out.1 in
                  let d = sleep_time max_delay delay drawn.0 in
                  let (tries, later, tried) =
                    retry_from-Tried left (attempt + 1) (next_delay max_delay delay)
                      (pause d drawn.1) (omega arith) in
                  let whole =
                    later
                    ∙ ap (λ l. l ++ tries) (still d drawn.1 ∙ quiet (delay / 5) out.1 ∙ logged)
                    ∙ append_assoc (log s) (out.0 ∷ []) tries in
                  (
                    out.0 ∷ tries,
                    rw (bad, again, more) (rw (bad, again) at whole),
                    rw (bad, again, more) tried,
                  )
            ]
          ]
        ]

    -- The attempts that are made are those of `Tried`: at most `max_attempts`, and at least one if
    -- that is not zero; all but the last of them are failures that may be tried again, and the
    -- result is whether the last one succeeded. For any state, attempts and pauses that keep a log
    -- of the outcomes.
    pub retry_with_backoff-Tried :
        (base : ℕ) (s : S)
        → (tries : List (Bool × Bool)) × (log (run_all base s).1 ≡ log s ++ tries)
          × Tried max_attempts tries (run_all base s).0
    unfolding retry_with_backoff
    retry_with_backoff-Tried base s = retry_from-Tried max_attempts 1 base s (omega arith)

  module _ (P : S → Type 0) (attempts : (a : ℕ) (s : S) → P s → P (fn a s).1)
      (draws : (n : ℕ) (s : S) → P s → P (random n s).1)
      (pauses : (d : ℕ) (s : S) → d ≤ max_delay → P s → P (pause d s)) where
    retry_from_inv : (left attempt delay : ℕ) (s : S) → P s → P (run_from left attempt delay s).1
    unfolding retry_from
    retry_from_inv zero attempt delay s h = h
    retry_from_inv (suc left) attempt delay s h =
        let out = fn attempt s in
        elim (Bool-cases out.0.0) [
          | inl ok ↦ rw ok (attempts attempt s h)
          | inr bad ↦ elim (Bool-cases (not out.0.1 || attempt == max_attempts)) [
            | inl stop ↦ rw (bad, stop) (attempts attempt s h)
            | inr more ↦
                let drawn = random (delay / 5) out.1 in
                let d = sleep_time max_delay delay drawn.0 in
                rw (bad, more)
                  (retry_from_inv left (attempt + 1) (next_delay max_delay delay) (pause d drawn.1)
                    (pauses d drawn.1 (sleep_time-le max_delay delay drawn.0)
                      (draws (delay / 5) out.1 (attempts attempt s h))))
          ]
        ]

    -- What every attempt, every draw and every pause of at most `max_delay` keeps, the loop keeps,
    -- whatever the base delay.
    pub retry_with_backoff_inv : (base : ℕ) (s : S) → P s → P (run_all base s).1
    unfolding retry_with_backoff
    retry_with_backoff_inv base s h = retry_from_inv max_attempts 1 base s h

  -- The loop makes its first attempt, if it may make any.
  module _ (P : S → Type 0) (attempts : (a : ℕ) (s : S) → P s → P (fn a s).1)
      (draws : (n : ℕ) (s : S) → P s → P (random n s).1)
      (pauses : (d : ℕ) (s : S) → d ≤ max_delay → P s → P (pause d s)) where
    retry_from_after :
        (left attempt delay : ℕ) (s : S)
        → 1 ≤ left
        → P (fn attempt s).1
        → P (run_from left attempt delay s).1
    unfolding retry_from
    retry_from_after zero attempt delay s some_left h = absurd (omega arith)
    retry_from_after (suc left) attempt delay s some_left h =
        let out = fn attempt s in
        elim (Bool-cases out.0.0) [
          | inl ok ↦ rw ok h
          | inr bad ↦ elim (Bool-cases (not out.0.1 || attempt == max_attempts)) [
            | inl stop ↦ rw (bad, stop) h
            | inr more ↦
                let drawn = random (delay / 5) out.1 in
                let d = sleep_time max_delay delay drawn.0 in
                rw (bad, more)
                  (retry_from_inv P attempts draws pauses left (attempt + 1)
                    (next_delay max_delay delay) (pause d drawn.1)
                    (pauses d drawn.1 (sleep_time-le max_delay delay drawn.0)
                      (draws (delay / 5) out.1 h)))
          ]
        ]

    pub retry_with_backoff_after :
        (base : ℕ) (s : S) → 1 ≤ max_attempts → P (fn 1 s).1 → P (run_all base s).1
    unfolding retry_with_backoff
    retry_with_backoff_after base s some_left h = retry_from_after max_attempts 1 base s some_left h

  -- A relation on states that holds from `s` to `s` for a failure, and goes through failures, holds
  -- over the loop with the loop's outcome where it holds over each attempt with the attempt's.
  module _ (R : Bool → S → S → Type 0) (none_tried : (s : S) → R false s s)
      (compose : (ok : Bool) (s s' s'' : S) → R false s s' → R ok s' s'' → R ok s s'')
      (attempts : (a : ℕ) (s : S) → R (fn a s).0.0 s (fn a s).1)
      (draws : (n : ℕ) (s : S) → R false s (random n s).1)
      (pauses : (d : ℕ) (s : S) → R false s (pause d s)) where
    retry_from_rel :
        (left attempt delay : ℕ) (s : S)
        → R (run_from left attempt delay s).0 s (run_from left attempt delay s).1
    unfolding retry_from
    retry_from_rel zero attempt delay s = none_tried s
    retry_from_rel (suc left) attempt delay s =
        let out = fn attempt s in
        let tried = attempts attempt s in
        elim (Bool-cases out.0.0) [
          | inl ok ↦ rw ok (rw ok at tried)
          | inr bad ↦
              let failed : R false s out.1 = rw bad at tried in
              elim (Bool-cases (not out.0.1 || attempt == max_attempts)) [
                | inl stop ↦ rw (bad, stop) failed
                | inr more ↦
                    let drawn = random (delay / 5) out.1 in
                    let paused = pause (sleep_time max_delay delay drawn.0) drawn.1 in
                    let next = next_delay max_delay delay in
                    let rest = retry_from_rel left (attempt + 1) next paused in
                    let ok = (run_from left (attempt + 1) next paused).0 in
                    let end = (run_from left (attempt + 1) next paused).1 in
                    let before =
                      compose false out.1 drawn.1 paused (draws (delay / 5) out.1)
                        (pauses (sleep_time max_delay delay drawn.0) drawn.1) in
                    rw (bad, more)
                      (compose ok s out.1 end failed (compose ok out.1 paused end before rest))
              ]
        ]

    pub retry_with_backoff_rel : (base : ℕ) (s : S) → R (run_all base s).0 s (run_all base s).1
    unfolding retry_with_backoff
    retry_with_backoff_rel base s = retry_from_rel max_attempts 1 base s
