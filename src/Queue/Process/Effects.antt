-- ===== src/Queue/Process/Effects.antt =====
-- What processFax leaves behind: the tracker, the results channel and the notification.
use gofaxserver.Prelude.{
  ℕ, String, ◌≡◌, refl, ◌∙◌, subst, inl, inr, Bool, false, not, arith, ◌==◌, Eq_nat, Eq_text,
  Bool-cases,
}
use gofaxserver.Policy.Signature.{escalate_retry_chain}
use gofaxserver.Queue.Delivery.Steps.{Follows}
use gofaxserver.Tracker.{set_call}
use gofaxserver.Tracker.Others.{
  mark_waiting-Touches, Touches-none, mark_attempt-Touches, set_call-Touches, Touches-trans,
  Touches,
}
use gofaxserver.Queue.Attempts.{
  pause, Attempting, gateway_attempt, webhook_attempt, webhook_answer, gateway_answer, Target,
  start_attempt, stamp_and_send,
}
use gofaxserver.Model.{FaxJob}
use gofaxserver.Queue.Outside.{
  HttpOutcome, FaxJobWithFile, SendOutcome, max_attempts, QueueState, QueueConfig, Outside,
}
use Prim.Native.String

module _ (o : Outside) (c : QueueConfig) (f : FaxJob) where
  -- A delivery concerns its job alone.
  abbrev pub Tracks : QueueState o → QueueState o → Type 0
  Tracks s s' = Touches f.uuid s.tracker s'.tracker

  stamp_and_send-tracker :
      (ff : FaxJob) (start : ℕ) (ok : Bool) (text : String) (s : QueueState o)
      → (stamp_and_send o c ff start ok text s).1.tracker ≡ s.tracker
  unfolding stamp_and_send
  stamp_and_send-tracker ff start ok text s = refl

  start_attempt-Tracks :
      (t : Target) (n : ℕ) (ff : FaxJob) (s : QueueState o)
      → t.job_id ≡ f.uuid
      → Tracks s (start_attempt o c t n (ff, s)).1
  unfolding start_attempt
  start_attempt-Tracks t n ff s e =
      let (call_id, w) = o.new_uuid s.world in
      let (time, w') = o.now w in
      let called = set_call time t.job_id call_id s.tracker in
      subst (λ j. Touches j s.tracker (start_attempt o c t n (ff, s)).1.tracker) e
        (Touches-trans t.job_id s.tracker called _
          (set_call-Touches time t.job_id call_id s.tracker)
          (mark_attempt-Touches time t.job_id call_id n (max_attempts c) t.prio t.ep_type t.ep_label
            t.ep_value called))

  gateway_answer-tracker :
      (start : ℕ) (out : SendOutcome) (s : QueueState o)
      → (gateway_answer o c start out s).1.1.tracker ≡ s.tracker
  unfolding gateway_answer stamp_and_send
  gateway_answer-tracker start out s = ground arith

  webhook_answer-tracker :
      (t : Target) (start : ℕ) (a : Attempting o c) (out : HttpOutcome)
      → (webhook_answer o c t start a out).1.1.tracker ≡ a.1.tracker
  unfolding webhook_answer stamp_and_send
  webhook_answer-tracker t start a out = ground arith

  webhook_attempt-Tracks :
      (t : Target) (url : String) (payload : FaxJobWithFile) (n : ℕ) (a : Attempting o c)
      → t.job_id ≡ f.uuid
      → Tracks a.1 (webhook_attempt o c t url payload n a).1.1
  unfolding webhook_attempt
  webhook_attempt-Tracks t url payload n (ff, s) e =
      let (start, w) = o.now s.world in
      let s1 = record s { world = w } in
      let body = record payload { job = ff } in
      let (ff', s') = start_attempt o c t n (ff, s1) in
      let (out, w') = o.post url body s'.world in
      let unprepared = String.◌++◌ t.ep_type " payload not prepared" in
      elim (Bool-cases (payload.file_data == "")) [
        | inl empty ↦
            rw (empty, stamp_and_send-tracker ff start false unprepared s1)
              (Touches-none f.uuid s.tracker)
        | inr full ↦ elim (Bool-cases (not (o.marshals body))) [
          | inl bad ↦
              rw (full, bad, stamp_and_send-tracker ff start false "marshal error" s1)
                (Touches-none f.uuid s.tracker)
          | inr good ↦
              rw (full, good, webhook_answer-tracker t start (ff', record s' { world = w' }) out)
                (start_attempt-Tracks t n ff s1 e)
        ]
      ]

  pub Tracks-Follows : Follows o c f.uuid (λ _. Tracks)
  unfolding gateway_attempt pause
  Tracks-Follows = record {
    idle = λ w s. Touches-none f.uuid s.tracker;
    compose = λ ok s s' s''. Touches-trans f.uuid s.tracker s'.tracker s''.tracker;
    sends = λ t n (ff, s) e.
        let (ff1, s1) = start_attempt o c t n (escalate_retry_chain c.policy n ff, s) in
        let (start, w) = o.now s1.world in
        let (out, w') = o.send_fax ff1 w in
        rw (gateway_answer-tracker start out (record s1 { world = w' }))
          (start_attempt-Tracks t n (escalate_retry_chain c.policy n ff) s e);
    posts = webhook_attempt-Tracks;
    waits = λ d (ff, s). mark_waiting-Touches (o.now s.world).0 f.uuid s.tracker;
  }

  -- A delivery notifies nobody.
  abbrev pub Quiet : QueueState o → QueueState o → Type 0
  Quiet s s' = s'.notified ≡ s.notified

  webhook_attempt-Quiet :
      (t : Target) (url : String) (payload : FaxJobWithFile) (n : ℕ) (a : Attempting o c)
      → Quiet a.1 (webhook_attempt o c t url payload n a).1.1
  unfolding webhook_attempt webhook_answer start_attempt stamp_and_send
  webhook_attempt-Quiet t url payload n (ff, s) = ground arith

  gateway_attempt-Quiet :
      (t : Target) (n : ℕ) (a : Attempting o c) → Quiet a.1 (gateway_attempt o c t n a).1.1
  unfolding gateway_attempt gateway_answer start_attempt stamp_and_send
  gateway_attempt-Quiet t n (ff, s) = ground arith

  pub Quiet-Follows : Follows o c f.uuid (λ _. Quiet)
  unfolding pause
  Quiet-Follows = record {
    idle = λ w s. refl;
    compose = λ ok s s' s'' e e'. e' ∙ e;
    sends = λ t n a e. gateway_attempt-Quiet t n a;
    posts = λ t url payload n a e. webhook_attempt-Quiet t url payload n a;
    waits = λ d a. refl;
  }
