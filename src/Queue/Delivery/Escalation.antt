-- ===== src/Queue/Delivery/Escalation.antt =====
-- How far the worker of the gateways goes.
use gofaxserver.Prelude.{
  ℕ, suc, ◌+◌, ◌≤◌, ◌<◌, String, ◌≡◌, ap, inl, inr, Bool, true, false, not, some, List, [], ◌∷◌,
  arith, if◌then◌else◌, Eq_nat, Eq_text, Bool-cases, length, is_empty, keep, length-append,
}
use gofaxserver.Queue.Outside.{base_delay}
use gofaxserver.Queue.Groups.{is_global_upstream_gateway_group}
use gofaxserver.Prelude.Text.{join_comma}
use gofaxserver.Queue.Retry.{retry_with_backoff_after}
use gofaxserver.Policy.Signature.{escalate_retry_chain}
use gofaxserver.Prelude.Map.{or_nil, find_key}
use gofaxserver.Model.{blank_result, Endpoint, FaxJob}
use gofaxserver.Queue.Groups.{PrioMap}
use gofaxserver.Queue.Delivery.{
  target, with_retries, gateway_single, gateway_batch, gateway_prios, gateway_group, deliver_each,
}
use gofaxserver.Queue.Attempts.{
  Attempting, succeeded, Target, with_cause, pause, start_attempt, draw, gateway_attempt,
  gateway_answer, stamp_and_send,
}
use gofaxserver.Queue.Outside.{
  max_delay, max_attempts, SendOutcome, QueueState, QueueConfig, Outside,
}

-- The priorities that have endpoints.
abbrev pub used : PrioMap → List ℕ → List ℕ
used m prios = keep (λ p. not (is_empty (or_nil (find_key {K = ℕ} ⦃e = Eq_nat⦄ p m)))) prios

module _ (o : Outside) (c : QueueConfig) where
  abbrev sent : QueueState o → ℕ
  sent s = length s.results

  stamp_and_send-sent :
      (ff : FaxJob) (start : ℕ) (ok : Bool) (text : String) (s : QueueState o)
      → sent (stamp_and_send o c ff start ok text s).1 ≡ suc (sent s)
  unfolding stamp_and_send
  stamp_and_send-sent ff start ok text s =
      let ff' = (stamp_and_send o c ff start ok text s).0 in
      omega (arith, length-append s.results (ff' ∷ []))

  gateway_answer-sent :
      (start : ℕ) (out : SendOutcome) (s : QueueState o)
      → sent (gateway_answer o c start out s).1.1 ≡ suc (sent s)
  unfolding gateway_answer
  gateway_answer-sent start out s = elim (Bool-cases out.failed) [
    | inl failed ↦ rw failed (stamp_and_send-sent (with_cause out) start false "send error" s)
    | inr done ↦ elim (Bool-cases (succeeded out.job.result)) [
      | inl ok ↦ rw (done, ok) (stamp_and_send-sent out.job start true "" s)
      | inr bad ↦ rw (done, bad) (stamp_and_send-sent out.job start false "gateway failure" s)
    ]
  ]

  gateway_attempt-sent :
      (t : Target) (n : ℕ) (a : Attempting o c)
      → sent (gateway_attempt o c t n a).1.1 ≡ suc (sent a.1)
  unfolding gateway_attempt start_attempt
  gateway_attempt-sent t n (ff, s) =
      let (ff1, s1) = start_attempt o c t n (escalate_retry_chain c.policy n ff, s) in
      let (start, w) = o.now s1.world in
      let (out, w') = o.send_fax ff1 w in gateway_answer-sent start out (record s1 { world = w' })

  with_retries-sent :
      (job_id : ℕ) (t : Target) (ff : FaxJob) (s : QueueState o)
      → sent s < sent (with_retries o c job_id (gateway_attempt o c t) ff s).1
  unfolding draw pause max_attempts
  with_retries-sent job_id t ff s =
      retry_with_backoff_after (gateway_attempt o c t) (draw o c) (pause o c job_id)
        (max_attempts c) max_delay (λ a. sent s < sent a.1)
        (λ n a h. omega (arith, gateway_attempt-sent t n a, h)) (λ n a h. h) (λ d a le h. h)
        (base_delay c) (ff, s) (ground arith) (omega (arith, gateway_attempt-sent t 1 (ff, s)))

  deliver_each-le :
      {A : Type 0} (try : A → QueueState o → Bool × QueueState o)
      → ((a : A) (s : QueueState o) → sent s < sent (try a s).1)
      → (xs : List A) (s : QueueState o) → sent s ≤ sent (deliver_each try xs s).1
  unfolding deliver_each
  deliver_each-le try tries [] s = omega arith
  deliver_each-le try tries (x ∷ xs) s = elim (Bool-cases (try x s).0) [
    | inl ok ↦ rw ok (omega (arith, tries x s))
    | inr bad ↦ rw bad (omega (arith, tries x s, deliver_each-le try tries xs (try x s).1))
  ]

  deliver_each-sent :
      {A : Type 0} (try : A → QueueState o → Bool × QueueState o)
      → ((a : A) (s : QueueState o) → sent s < sent (try a s).1)
      → (xs : List A) (s : QueueState o) → is_empty xs ≡ false
      → sent s < sent (deliver_each try xs s).1
  unfolding deliver_each
  deliver_each-sent try tries [] s full = absurd cc
  deliver_each-sent try tries (x ∷ xs) s full = elim (Bool-cases (try x s).0) [
    | inl ok ↦ rw ok (tries x s)
    | inr bad ↦ rw bad (omega (arith, tries x s, deliver_each-le try tries xs (try x s).1))
  ]

  gateway_group-sent :
      (f : FaxJob) (prio : ℕ) (group : List Endpoint) (s : QueueState o)
      → is_empty group ≡ false
      → sent s < sent (gateway_group o c f prio group s).1
  unfolding gateway_group gateway_batch gateway_single
  gateway_group-sent f prio group s full =
      let ff = record f { result = some blank_result } in
      let t : Target = record {
        job_id = f.uuid;
        prio = prio;
        ep_type = "gateway";
        ep_label = "global";
        ep_value = join_comma c.upstreams;
      } in
      elim (Bool-cases (is_global_upstream_gateway_group group)) [
        | inl batch ↦ elim (Bool-cases (o.enables_bridge f s.world)) [
          | inl shot ↦ rw (batch, shot) (omega (arith, gateway_attempt-sent t 0 (ff, s)))
          | inr tried ↦ rw (batch, tried) (with_retries-sent f.uuid t ff s)
        ]
        | inr split ↦ rw split (
            deliver_each-sent (gateway_single o c f prio)
              (λ ep s'. with_retries-sent f.uuid (target f prio ep) _ s') group s full)
      ]

  -- The worker of the gateways puts at least one result on the results channel for each priority
  -- that has endpoints, whether or not an earlier priority succeeded.
  pub gateway_prios-every :
      (f : FaxJob) (m : PrioMap) (prios : List ℕ) (s : QueueState o)
      → length s.results + length (used m prios) ≤ length (gateway_prios o c f m prios s).results
  unfolding gateway_prios
  gateway_prios-every f m [] s = omega arith
  gateway_prios-every f m (prio ∷ prios) s =
      let group = or_nil (find_key prio m) in
      let s' = (gateway_group o c f prio group s).1 in
      elim (Bool-cases (is_empty group)) [
        | inl empty ↦ rw (gateway_prios, empty) (gateway_prios-every f m prios s)
        | inr full ↦
            let step : gateway_prios o c f m (prio ∷ prios) s ≡ gateway_prios o c f m prios s' =
              ap (λ b. gateway_prios o c f m prios (if b then s else s')) full in
            let more = gateway_group-sent f prio group s full in
            let rest = gateway_prios-every f m prios s' in
            rw (step, full) (omega (arith, more, rest))
      ]
