-- ===== src/Portal/Polling.antt =====
-- How the portal learns what became of a fax: the poller (portal/internal/poller/poller.go), which reads
-- the rows that the fax server keeps, and the push of the fax server that
-- portal/internal/api/handlers_notify.go takes. Times are nanoseconds, and the zero time is 0.
pub mod Notes
pub mod Runs
use gofaxserver.Prelude.{
  ℕ, ◌+◌, String, Bool, true, false, ◌&&◌, ◌||◌, not, Option, none, some, List, [], ◌∷◌, ltb,
  if◌then◌else◌, ◌==◌, Eq_nat, Eq_text, length, keep, first_such,
}
use gofaxserver.Notify.Payload.{PortalStatusPayload}

-- FaxStatusRow of portal/internal/fsclient/client.go, with the fields that the poller reads.
pub record FaxStatusRow : Type 0 where
  pub result_type : String
  pub start_ts : ℕ
  pub end_ts : ℕ
  pub hangup_cause : String
  pub transferred_pages : ℕ
  pub total_pages : ℕ
  pub success : Bool
  pub result_text : String

-- FaxJob of portal/internal/models/models.go, with what the poller and the push read or write.
pub record PortalJob : Type 0 where
  pub status : String
  pub pages : ℕ
  pub total_pages : ℕ
  pub attempts : ℕ
  pub result_text : String
  pub last_error : String
  pub seen_active : Bool
  pub submitted_at : ℕ
  pub completed_at : Option ℕ
  pub updated_at : ℕ

-- decision
pub record Decision : Type 0 where
  pub status : String
  pub attempts : ℕ
  pub pages : ℕ
  pub total_pages : ℕ
  pub result_text : String
  pub last_err : String
  pub completed : Option ℕ
  pub terminal : Bool
  pub saw_active : Bool

abbrev pub failure_grace : ℕ
failure_grace = 30_000_000_000

abbrev pub stale_job_timeout : ℕ
stale_job_timeout = 86_400_000_000_000

abbrev pub is_note : FaxStatusRow → Bool
is_note r = r.result_type == "notify"

-- Whether a row is of a real attempt.
abbrev pub is_real : FaxStatusRow → Bool
is_real r = not (r.hangup_cause == "WEBHOOK" || is_note r)

abbrev pub more_pages : ℕ → ℕ → ℕ
more_pages a b = if ltb a b then b else a

-- The loop over all rows, for the pages of the document.
unfoldable pub document_pages : List FaxStatusRow → ℕ → ℕ
document_pages [] n = n
document_pages (r ∷ rows) n =
    document_pages rows (if not (is_note r) then more_pages n r.total_pages else n)

-- The loop over the real rows: bestPages, successRow and lastRow.
unfoldable pub best_pages : List FaxStatusRow → ℕ → ℕ
best_pages [] n = n
best_pages (r ∷ rows) n = best_pages rows (more_pages n r.transferred_pages)

unfoldable pub success_row : List FaxStatusRow → Option FaxStatusRow
success_row rows = first_such (λ r. r.success) rows

abbrev pub not_before : Option FaxStatusRow → FaxStatusRow → Option FaxStatusRow
not_before none r = some r
not_before (some last) r = if ltb r.start_ts last.start_ts then some last else some r

unfoldable pub last_row : List FaxStatusRow → Option FaxStatusRow → Option FaxStatusRow
last_row [] last = last
last_row (r ∷ rows) last = last_row rows (not_before last r)

-- The case of a success, that of a failure with its last row, and the cases of a job in flight.
unfoldable pub succeed : FaxStatusRow → ℕ → Decision → Decision
succeed r now d = record d {
  status = "success";
  terminal = true;
  result_text = r.result_text;
  completed = some (if r.end_ts == 0 then now else r.end_ts);
}

unfoldable pub give_up : FaxStatusRow → ℕ → Decision → Decision
give_up r now d = record d {
  status = "failed";
  terminal = true;
  result_text = r.result_text;
  last_err = if r.result_text == "" then r.hangup_cause else r.result_text;
  completed = some now;
}

unfoldable pub in_flight : Bool → Bool → Decision → Decision
in_flight in_active seen_active d =
    if in_active
    then record d { status = "sending"; saw_active = true }
    else if seen_active
    then record d { status = "sending" }
    else d

-- The condition of a failure, apart from the rows.
abbrev pub is_over : Bool → Bool → Bool → ℕ → ℕ → Bool
is_over in_active active_ok seen_active submitted now =
    (not active_ok || not in_active && seen_active) && ltb (submitted + failure_grace) now

-- The switch; there is a last row where there is a row.
unfoldable pub conclude :
    Option FaxStatusRow → Option FaxStatusRow → Bool → Bool → Bool → ℕ → Decision → Decision
unfolding succeed give_up in_flight
conclude (some r) last over in_active seen_active now d = succeed r now d
conclude none none over in_active seen_active now d = in_flight in_active seen_active d
conclude none (some r) over in_active seen_active now d =
    if over then give_up r now d else in_flight in_active seen_active d

-- decide
unfoldable pub decide : List FaxStatusRow → Bool → Bool → Bool → ℕ → ℕ → Decision
unfolding document_pages best_pages success_row last_row conclude
decide all in_active active_ok seen_active submitted now =
    let rows = keep is_real all in
    let d : Decision = record {
      status = "queued";
      attempts = length rows;
      pages = best_pages rows 0;
      total_pages = document_pages all 0;
      result_text = "";
      last_err = "";
      completed = none;
      terminal = false;
      saw_active = false;
    } in
    conclude (success_row rows) (last_row rows none)
      (is_over in_active active_ok seen_active submitted now) in_active seen_active now d

-- The updates of reconcile, on the row that the database then holds.
unfoldable pub apply_decision : Decision → ℕ → PortalJob → PortalJob
apply_decision d now job =
    let counted : PortalJob = record job {
      attempts = d.attempts;
      total_pages = if ltb 0 d.total_pages then d.total_pages else job.total_pages;
      status = d.status;
      updated_at = now;
    } in
    if d.terminal
    then record counted {
      pages = d.pages;
      result_text = d.result_text;
      last_error = d.last_err;
      seen_active = true;
      completed_at = d.completed;
    }
    else record counted { seen_active = d.saw_active || job.seen_active }

-- What a tick finds out about a job: the rows, nothing if they cannot be read, whether the tracker's
-- snapshot lists the job, and whether there is a snapshot.
pub record Polled : Type 0 where
  pub rows : Option (List FaxStatusRow)
  pub in_active : Bool
  pub active_ok : Bool

abbrev pub is_terminal : PortalJob → Bool
is_terminal job = job.status == "success" || job.status == "failed"

-- The query of tick.
abbrev pub is_due : ℕ → PortalJob → Bool
is_due now job =
    (job.status == "queued" || job.status == "sending") && ltb (job.updated_at + 3_000_000_000) now

abbrev pub is_stale : ℕ → PortalJob → Bool
is_stale now job = ltb (job.submitted_at + stale_job_timeout) now

-- update, as tick calls it for a job that is stale
abbrev pub time_out : ℕ → PortalJob → PortalJob
time_out now job = record job {
  status = "failed";
  result_text = "";
  last_error = "timed out without an upstream result";
  seen_active = true;
  completed_at = some now;
  updated_at = now;
}

-- What tick writes for a job that it loaded as `loaded` and that is `job` when it writes.
unfoldable pub write_back : Polled → ℕ → PortalJob → PortalJob → PortalJob
unfolding decide apply_decision
write_back p now loaded job =
    if is_stale now loaded
    then record (time_out now job) { attempts = loaded.attempts; pages = loaded.pages }
    else (elim p.rows [
      | none ↦ job
      | some rows ↦
          apply_decision
            (decide rows p.in_active p.active_ok loaded.seen_active loaded.submitted_at now) now job
    ])

-- tick for one job, if nothing else writes it meanwhile
unfoldable pub tick_job : Polled → ℕ → PortalJob → PortalJob
unfolding write_back
tick_job p now job = if is_due now job then write_back p now job job else job

-- The cases of handleStatusNotify's switch.
unfoldable pub pushed_status : PortalStatusPayload → ℕ → PortalJob → PortalJob
pushed_status p now job =
    let completed = if p.end_ts == 0 then now else p.end_ts in
    if p.success
    then record job {
      status = "success";
      result_text = p.result_text;
      completed_at = some completed;
    }
    else if p.all_attempts_failed
    then record job {
      status = "failed";
      result_text = p.result_text;
      last_error = if p.result_text == "" then p.hangup_cause else p.result_text;
      completed_at = some completed;
    }
    else record job { status = "sending" }

-- handleStatusNotify, once the organisation and its job are found
unfoldable pub handle_status_notify : PortalStatusPayload → ℕ → PortalJob → PortalJob
unfolding pushed_status
handle_status_notify p now job =
    if is_terminal job
    then job
    else pushed_status p now (record job {
      attempts = p.attempts;
      pages = p.transferred_pages;
      total_pages = p.total_pages;
      updated_at = now;
    })
