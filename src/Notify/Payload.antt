-- ===== src/Notify/Payload.antt =====
-- buildPortalStatusPayload of gofaxserver/notify.go: the outcome that the portal is told. The map of
-- results is a list, in the order in which its `range` happens to go.
pub mod Choice
use gofaxserver.Prelude.{
  ℕ, String, Bool, false, ◌||◌, Option, none, some, List, [], ◌∷◌, ltb, if◌then◌else◌, ◌==◌, Eq_nat,
  Eq_text, length,
}
use gofaxserver.Queue.Outside.{Notification}
use gofaxserver.Prelude.Map.{Map}
use gofaxserver.Model.{blank_result, Endpoint, FaxResult, FaxJob}

-- PortalStatusPayload; the texts of UUID are the job's number.
pub record PortalStatusPayload : Type 0 where
  pub uuid : ℕ
  pub success : Bool
  pub all_attempts_failed : Bool
  pub attempts : ℕ
  pub transferred_pages : ℕ
  pub total_pages : ℕ
  pub result_text : String
  pub hangup_cause : String
  pub caller_id_number : String
  pub callee_number : String
  pub start_ts : ℕ
  pub end_ts : ℕ

abbrev pub Attempt : Type 0
Attempt = FaxJob × FaxResult

-- What the loop keeps: the pages, and the jobs callJob, successJob and lastJob with their results.
pub record Collapse : Type 0 where
  pub transferred : ℕ
  pub total : ℕ
  pub call_job : Option FaxResult
  pub success_job : Option FaxResult
  pub last_job : Option FaxResult

abbrev pub nothing_yet : Collapse
nothing_yet = record {
  transferred = 0;
  total = 0;
  call_job = none;
  success_job = none;
  last_job = none;
}

-- Whether the first endpoint is the synthetic one of a call's outcome.
unfoldable pub is_call_outcome : List Endpoint → Bool
is_call_outcome [] = false
is_call_outcome (ep ∷ eps) = ep.endpoint_type == "reception" || ep.endpoint_type == "bridge"

abbrev pub first_or : Option FaxResult → Bool → FaxResult → Option FaxResult
first_or (some old) b r = some old
first_or none b r = if b then some r else none

abbrev pub later : Option FaxResult → FaxResult → Option FaxResult
later none r = some r
later (some old) r = if ltb old.end_ts r.end_ts then some r else some old

abbrev higher : ℕ → ℕ → ℕ
higher a b = if ltb a b then b else a

-- One round of the loop for an attempt that has a result.
unfoldable pub note_attempt : FaxJob → FaxResult → Collapse → Collapse
unfolding is_call_outcome
note_attempt job r c = record {
  transferred = higher c.transferred r.transferred_pages;
  total = higher c.total r.total_pages;
  call_job = first_or c.call_job (is_call_outcome job.endpoints) r;
  success_job = first_or c.success_job r.success r;
  last_job = later c.last_job r;
}

abbrev pub note_result : FaxJob → Option FaxResult → Collapse → Collapse
note_result job none c = c
note_result job (some r) c = note_attempt job r c

unfoldable pub collapse_results : Map ℕ FaxJob → Collapse → Collapse
unfolding note_attempt
collapse_results [] c = c
collapse_results ((_, job) ∷ results) c = collapse_results results (note_result job job.result c)

abbrev pub instead : Option FaxResult → Option FaxResult → Option FaxResult
instead (some r) other = some r
instead none other = other

-- The job that describes the outcome.
abbrev pub chosen : Collapse → Option FaxResult
chosen c = instead c.call_job (instead c.success_job c.last_job)

abbrev pub or_blank : Option FaxResult → FaxResult
or_blank none = blank_result
or_blank (some r) = r

-- buildPortalStatusPayload
unfoldable pub build_portal_status_payload : Notification → PortalStatusPayload
unfolding collapse_results
build_portal_status_payload n =
    let c = collapse_results n.results nothing_yet in
    let r = or_blank (chosen c) in
    record {
      uuid = n.job.uuid;
      success = r.success;
      all_attempts_failed = n.all_attempts_failed;
      attempts = length n.results;
      transferred_pages = c.transferred;
      total_pages = c.total;
      result_text = r.result_text;
      hangup_cause = r.hangup_cause;
      caller_id_number = n.job.caller_id_number;
      callee_number = n.job.callee_number;
      start_ts = r.start_ts;
      end_ts = r.end_ts;
    }
