-- ===== src/Queue/Attempts.antt =====
-- One attempt of a delivery, to a gateway or to a webhook (the closures sendOnce, sendOne and
-- sendWebhookOnce of processFax in gofaxserver/queue.go).
use gofaxserver.Prelude.{
  ℕ, String, Bool, true, false, ◌&&◌, ◌||◌, not, Option, none, some, [], ◌∷◌, ◌++◌, ltb, leb,
  if◌then◌else◌, ◌==◌, Eq_nat, Eq_text,
}
use gofaxserver.Model.{FaxJob, FaxResult, blank_result}
use gofaxserver.Prelude.Map.{put}
use gofaxserver.Tracker.{set_call, mark_attempt, mark_waiting}
use gofaxserver.Policy.Signature.{escalate_retry_chain}
use gofaxserver.Queue.Outside.{
  Outside, QueueConfig, QueueState, FaxJobWithFile, SendOutcome, HttpOutcome, no_request,
  no_response, status, max_attempts,
}
use Prim.Native.String

abbrev result_or_blank : Option FaxResult → FaxResult
result_or_blank none = blank_result
result_or_blank (some r) = r

-- The job as stampAndSend leaves it.
unfoldable pub stamped : FaxJob → ℕ → ℕ → Bool → String → FaxJob
stamped ff start stop success human_status =
    let r = record (result_or_blank ff.result) {
      uuid = ff.call_uuid;
      success = success;
      start_ts = start;
      end_ts = stop;
    } in
    let new_status =
      if human_status == "" || not success && not (r.hangup_cause == "")
      then ff.status
      else human_status in
    record ff { result = some r; status = new_status }

-- ff.Result != nil && ff.Result.HangupCause == ""
abbrev no_hangup_cause : Option FaxResult → Bool
no_hangup_cause none = false
no_hangup_cause (some r) = r.hangup_cause == ""

abbrev set_hangup_cause : String → Option FaxResult → Option FaxResult
set_hangup_cause cause none = none
set_hangup_cause cause (some r) = some (record r { hangup_cause = cause })

-- ff.Result.HangupCause = ff.Status, on a final error without a cause
abbrev pub with_cause : SendOutcome → FaxJob
with_cause out =
    let ff = out.job in
    if not out.retry && no_hangup_cause ff.result
    then record ff { result = set_hangup_cause ff.status ff.result }
    else ff

abbrev pub succeeded : Option FaxResult → Bool
succeeded none = false
succeeded (some r) = r.success

-- The function isRetriableStatus.
unfoldable pub is_retriable_status : ℕ → Bool
is_retriable_status code = code == 408 || code == 429 || leb 500 code && leb code 599

-- Which job and which group an attempt belongs to.
pub record Target : Type 0 where
  pub job_id : ℕ
  pub prio : ℕ
  pub ep_type : String
  pub ep_label : String
  pub ep_value : String

module _ (o : Outside) (c : QueueConfig) where
  -- The state of the retry loop: the copy of the job that its attempts change, and the queue's.
  abbrev pub Attempting : Type 0
  Attempting = FaxJob × QueueState o

  -- sendResult: one more result on the channel, and one more outcome for the notification.
  unfoldable pub stamp_and_send : FaxJob → ℕ → Bool → String → QueueState o → Attempting
  unfolding stamped
  stamp_and_send ff start success human_status s =
      let (stop, w) = o.now s.world in
      let ff' = stamped ff start stop success human_status in
      (
        ff',
        record s {
          world = w;
          results = s.results ++ ff' ∷ [];
          outcomes = put ff'.call_uuid ff' s.outcomes;
        },
      )

  -- A blank result, a new call, and the tracker's entry for the attempt.
  unfoldable pub start_attempt : Target → ℕ → Attempting → Attempting
  unfolding set_call mark_attempt
  start_attempt t attempt (ff, s) =
      let (call_id, w) = o.new_uuid s.world in
      let (time, w') = o.now w in
      (
        record ff { result = some blank_result; call_uuid = call_id },
        record s {
          world = w';
          tracker =
              mark_attempt time t.job_id call_id attempt (max_attempts c) t.prio t.ep_type
                t.ep_label t.ep_value (set_call time t.job_id call_id s.tracker);
        },
      )

  -- What sendOnce and sendOne make of SendFax's return.
  unfoldable pub gateway_answer : ℕ → SendOutcome → QueueState o → (Bool × Bool) × Attempting
  unfolding stamp_and_send
  gateway_answer start out s =
      if out.failed
      then ((false, out.retry), stamp_and_send (with_cause out) start false "send error" s)
      else if succeeded out.job.result
      then ((true, false), stamp_and_send out.job start true "" s)
      else ((false, true), stamp_and_send out.job start false "gateway failure" s)

  -- sendOnce and sendOne; a single shot has the attempt -1, written 0.
  unfoldable pub gateway_attempt : Target → ℕ → Attempting → (Bool × Bool) × Attempting
  unfolding start_attempt gateway_answer
  gateway_attempt t attempt (ff, s) =
      let (ff1, s1) = start_attempt t attempt (escalate_retry_chain c.policy attempt ff, s) in
      let (start, w) = o.now s1.world in
      let (out, w') = o.send_fax ff1 w in gateway_answer start out (record s1 { world = w' })

  -- What sendWebhookOnce makes of the answer.
  unfoldable pub webhook_answer : Target → ℕ → Attempting → HttpOutcome → (Bool × Bool) × Attempting
  unfolding stamp_and_send is_retriable_status
  webhook_answer t start (ff, s) no_request =
      ((false, false), stamp_and_send ff start false "request creation error" s)
  webhook_answer t start (ff, s) no_response =
      ((false, true), stamp_and_send ff start false (String.◌++◌ t.ep_type " request error") s)
  webhook_answer t start (ff, s) (status code) =
      if leb 200 code && ltb code 300
      then ((true, false), stamp_and_send ff start true (o.status_text code) s)
      else ((false, is_retriable_status code), stamp_and_send ff start false (o.status_text code) s)

  -- sendWebhookOnce; the payload holds the job as it is before the attempt has its call.
  unfoldable pub webhook_attempt :
      Target → String → FaxJobWithFile → ℕ → Attempting → (Bool × Bool) × Attempting
  unfolding start_attempt stamp_and_send webhook_answer
  webhook_attempt t url payload attempt (ff, s) =
      let (start, w) = o.now s.world in
      let s1 = record s { world = w } in
      let body = record payload { job = ff } in
      let started = start_attempt t attempt (ff, s1) in
      let (out, w') = o.post url body started.1.world in
      let s2 = record started.1 { world = w' } in
      if payload.file_data == ""
      then (
        (false, false),
        stamp_and_send ff start false (String.◌++◌ t.ep_type " payload not prepared") s1,
      )
      else if not (o.marshals body)
      then ((false, false), stamp_and_send ff start false "marshal error" s1)
      else webhook_answer t start (started.0, s2) out

  unfoldable pub draw : ℕ → Attempting → ℕ × Attempting
  draw n (ff, s) = let (r, w) = o.random n s.world in (r, (ff, record s { world = w }))

  -- MarkWaiting, then the sleep
  unfoldable pub pause : ℕ → ℕ → Attempting → Attempting
  unfolding mark_waiting
  pause job_id d (ff, s) =
      let (time, w) = o.now s.world in
      (ff, record s { world = o.sleep d w; tracker = mark_waiting time job_id s.tracker })
