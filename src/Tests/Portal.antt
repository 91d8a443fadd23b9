-- ===== src/Tests/Portal.antt =====
-- A job of the portal that is polled, and that the fax server pushes the outcome of.
use gofaxserver.Prelude.{
  ℕ, ◌*◌, String, ◌≡◌, refl, Bool, true, false, none, some, List, [], ◌∷◌, arith, Eq_text,
}
use gofaxserver.Router.{route_fax}
use gofaxserver.Model.{FaxJob}
use gofaxserver.Prelude.Map.{find_key}
use gofaxserver.Results.{mark_submission_processed, FaxJobResult, store_queue_fax_result}
use gofaxserver.Upload.{panics, handle_document_upload, uploaded_job, UploadRequest}
use gofaxserver.Portal.Limiter.{new_rate_limiter}
use gofaxserver.Portal.Limiter.Reference.{Hit, allow-reference, answers_of}
use gofaxserver.Notify.Dispatch.{process_notify_destinations_async}
use gofaxserver.Results.Groups.{legs_of}
use gofaxserver.Notify.Payload.{PortalStatusPayload}
use gofaxserver.Portal.Polling.{
  in_flight, conclude, apply_decision, last_row, write_back, pushed_status, success_row, tick_job,
  handle_status_notify, decide, FaxStatusRow, PortalJob, Polled,
}
use gofaxserver.Portal.Polling.Notes.{decide-dispatch, status_rows}
use gofaxserver.Portal.Polling.Runs.{
  Run, here, more, tick, push, IsSettled, Run-terminal, Run-IsSettled, write_back-after_push,
}
use gofaxserver.Tests.Notify.{maps, answers, note}
use gofaxserver.Tests.Results.{calm, sent_first}
use gofaxserver.Tests.Router.{toy, strip}

abbrev minute : ℕ
minute = 60_000_000_000

abbrev call_row : Bool → String → FaxStatusRow
call_row success cause = record {
  result_type = "transmission";
  start_ts = 1;
  end_ts = 2;
  hangup_cause = cause;
  transferred_pages = 1;
  total_pages = 3;
  success = success;
  result_text = "";
}

abbrev busy : List FaxStatusRow
busy = call_row false "WEBHOOK" ∷ call_row false "USER_BUSY" ∷ []

-- The same rows, of a job that no tick saw on the tracker.
unseen : (decide busy false true false 0 (100 * minute)).status ≡ "queued"
unfolding decide success_row last_row conclude in_flight
unseen = refl

decide-dispatch_example :
    decide
      (status_rows (
        legs_of 7 (process_notify_destinations_async answers note note.destinations "" sent_first)))
      false
      true
      true
      0
      minute
    ≡ decide (status_rows (legs_of 7 sent_first)) false true true 0 minute
decide-dispatch_example =
    decide-dispatch answers note note.destinations "" sent_first 7 false true true 0 minute

abbrev queued : PortalJob
queued = record {
  status = "queued";
  pages = 0;
  total_pages = 0;
  attempts = 0;
  result_text = "";
  last_error = "";
  seen_active = false;
  submitted_at = 1;
  completed_at = none;
  updated_at = 1;
}

abbrev listed : Polled
listed = record { rows = some (call_row false "WEBHOOK" ∷ []); in_active = true; active_ok = true }

abbrev succeeded_push : PortalStatusPayload
succeeded_push = record {
  uuid = 7;
  success = true;
  all_attempts_failed = false;
  attempts = 1;
  transferred_pages = 3;
  total_pages = 3;
  result_text = "OK";
  hangup_cause = "NORMAL_CLEARING";
  caller_id_number = "100";
  callee_number = "200";
  start_ts = 2;
  end_ts = 3;
}

abbrev polled_and_pushed : PortalJob
polled_and_pushed = handle_status_notify succeeded_push 9 (tick_job listed minute queued)

abbrev first_run : Run queued polled_and_pushed
first_run =
    more (more here (tick listed minute queued))
      (push succeeded_push 9 (tick_job listed minute queued))

Run-IsSettled_example : IsSettled polled_and_pushed
Run-IsSettled_example = Run-IsSettled first_run refl

Run-terminal_example : tick_job listed (9 * minute) polled_and_pushed ≡ polled_and_pushed
unfolding handle_status_notify pushed_status tick_job write_back apply_decision decide conclude
    in_flight success_row last_row
Run-terminal_example = Run-terminal (more here (tick listed (9 * minute) polled_and_pushed)) refl

write_back-after_push_example :
    ((handle_status_notify succeeded_push 5 queued).status ≡ "success")
    × ((write_back listed minute queued (handle_status_notify succeeded_push 5 queued)).status
        ≡ "sending")
write_back-after_push_example =
    write_back-after_push listed succeeded_push 5 minute queued (call_row false "WEBHOOK" ∷ []) refl
      refl refl refl refl refl

abbrev call : ℕ → Hit
call time = record { key = "10.0.0.1"; limit = 2; time = time }

abbrev calls : List Hit
calls = call 10 ∷ call 11 ∷ call 12 ∷ call 16 ∷ call 70 ∷ []

allow-reference_example :
    answers_of calls (new_rate_limiter 5 9) ≡ true ∷ true ∷ false ∷ true ∷ true ∷ []
allow-reference_example = allow-reference 5 9 calls (omega arith)

abbrev request : UploadRequest
request = record {
  has_file = true;
  extension = ".pdf";
  reads = true;
  content_type = "application/pdf";
  rewinds = true;
  document_id = 31;
  result_id = 32;
  tiff = some "/tmp/31.tiff";
  pages = some 3;
  callee_number = "300";
  caller_number = "200";
  source = "portal";
  user_id = "5";
  now = 4;
}

-- What routeFax makes of the job, and its row after the queue has taken the job.
abbrev routed_tick : FaxJob
routed_tick = (route_fax toy strip 4 maps (uploaded_job request "/tmp/31.tiff")).0

abbrev taken : List FaxJobResult
taken =
    mark_submission_processed calm routed_tick.uuid (store_queue_fax_result calm routed_tick []).1

-- A number of another tenant.
another_tenant : handle_document_upload request 2 maps ≡ panics
unfolding handle_document_upload find_key
another_tenant = refl
