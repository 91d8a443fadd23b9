-- ===== src/Portal/Polling/Notes.antt =====
-- What the poller makes of the rows that the fax server keeps of a job's calls, its intake and its
-- notifications.
use gofaxserver.Prelude.{
  ℕ, String, ◌≡◌, refl, inl, inr, Bool, true, false, ◌&&◌, ◌||◌, not, Option, none, some, List, [],
  ◌∷◌, ◌++◌, arith, if◌then◌else◌, ◌==◌, Eq_nat, Eq_text, Bool-cases, length, is_empty, is_some,
  keep, All, keep-All, keep-append,
}
use gofaxserver.Notify.Dispatch.Rows.{notify_rows-IsNotify}
use gofaxserver.Notify.{NotifyDestination}
use gofaxserver.Queue.Outside.{Notification}
use gofaxserver.Results.Groups.{legs_of, IsNotify}
use gofaxserver.Notify.Dispatch.{notify_rows, Surroundings, process_notify_destinations_async}
use gofaxserver.Portal.Polling.{
  not_before, in_flight, best_pages, give_up, Decision, succeed, is_over, conclude, more_pages,
  is_note, is_real, last_row, success_row, decide, document_pages, FaxStatusRow,
}
use gofaxserver.Results.{FaxJobResult}

abbrev or_zero : Option ℕ → ℕ
or_zero none = 0
or_zero (some t) = t

-- A row as the poller reads it.
abbrev pub status_row : FaxJobResult → FaxStatusRow
status_row row = record {
  result_type = row.result_type;
  start_ts = or_zero row.start_ts;
  end_ts = or_zero row.end_ts;
  hangup_cause = row.hangup_cause;
  transferred_pages = row.transferred_pages;
  total_pages = row.total_pages;
  success = row.success;
  result_text = row.result_text;
}

abbrev pub status_rows : List FaxJobResult → List FaxStatusRow
status_rows [] = []
status_rows (row ∷ rows) = status_row row ∷ status_rows rows

abbrev NoteRow : FaxStatusRow → Type 0
NoteRow r = r.result_type ≡ "notify"

keep-notes :
    (rows notes : List FaxStatusRow)
    → All NoteRow notes
    → keep is_real (rows ++ notes) ≡ keep is_real rows
keep-notes [] [] h = refl
keep-notes [] (r ∷ notes) (h, hs) = rw (h, keep-notes [] notes hs) (ground arith)
keep-notes (r ∷ rows) notes h = rw (keep-notes rows notes h) refl

document_pages-notes :
    (rows notes : List FaxStatusRow) (n : ℕ)
    → All NoteRow notes
    → document_pages (rows ++ notes) n ≡ document_pages rows n
unfolding document_pages
document_pages-notes [] [] n h = refl
document_pages-notes [] (r ∷ notes) n (h, hs) = rw h (document_pages-notes [] notes n hs)
document_pages-notes (r ∷ rows) notes n h =
    document_pages-notes rows notes (if not (is_note r) then more_pages n r.total_pages else n) h

-- Rows of notifications do not enter a decision.
decide-notes :
    (rows notes : List FaxStatusRow) (in_active active_ok seen_active : Bool) (submitted now : ℕ)
    → All NoteRow notes
    → decide (rows ++ notes) in_active active_ok seen_active submitted now
      ≡ decide rows in_active active_ok seen_active submitted now
unfolding decide
decide-notes rows notes in_active active_ok seen_active submitted now h =
    rw (keep-notes rows notes h, document_pages-notes rows notes 0 h) refl

status_rows-append :
    (xs ys : List FaxJobResult) → status_rows (xs ++ ys) ≡ status_rows xs ++ status_rows ys
status_rows-append [] ys = refl
status_rows-append (x ∷ xs) ys = rw (status_rows-append xs ys) refl

status_rows-notes : (rows : List FaxJobResult) → All IsNotify rows → All NoteRow (status_rows rows)
status_rows-notes [] h = tt
status_rows-notes (r ∷ rows) (h, hs) = (h, status_rows-notes rows hs)

-- Whatever the fax server notifies of, and whatever comes of it, the poller decides about every job as
-- it did before.
pub decide-dispatch :
    (e : Surroundings) (n : Notification) (ds : List NotifyDestination) (first_page : String)
    (table : List FaxJobResult) (id : ℕ) (in_active active_ok seen_active : Bool)
    (submitted now : ℕ)
    → decide
        (status_rows (legs_of id (process_notify_destinations_async e n ds first_page table)))
        in_active
        active_ok
        seen_active
        submitted
        now
      ≡ decide (status_rows (legs_of id table)) in_active active_ok seen_active submitted now
unfolding process_notify_destinations_async
decide-dispatch e n ds first_page table id in_active active_ok seen_active submitted now =
    let rows = notify_rows e n first_page ds in
    let notes =
      keep-All IsNotify (λ r. r.job_uuid == id) rows (notify_rows-IsNotify e n first_page ds) in
    elim (Bool-cases (is_empty ds || not e.makes_report)) [
      | inl idle ↦ rw idle refl
      | inr busy ↦
          rw
            (
              busy,
              keep-append (λ r. r.job_uuid == id) table rows,
              status_rows-append (legs_of id table) (legs_of id rows),
            )
            (decide-notes (status_rows (legs_of id table)) (status_rows (legs_of id rows)) in_active
              active_ok seen_active submitted now (status_rows-notes (legs_of id rows) notes))
    ]

abbrev pub any_success_row : List FaxStatusRow → Bool
any_success_row [] = false
any_success_row (r ∷ rows) = is_real r && r.success || any_success_row rows

abbrev pub any_real : List FaxStatusRow → Bool
any_real [] = false
any_real (r ∷ rows) = is_real r || any_real rows

success_row-is_some :
    (rows : List FaxStatusRow) → is_some (success_row (keep is_real rows)) ≡ any_success_row rows
unfolding success_row
success_row-is_some [] = refl
success_row-is_some (r ∷ rows) = ground (arith, success_row-is_some rows)

not_before-is_some :
    (last : Option FaxStatusRow) (r : FaxStatusRow) → is_some (not_before last r) ≡ true
not_before-is_some none r = refl
not_before-is_some (some last) r = ground arith

last_row-is_some :
    (rows : List FaxStatusRow) (last : Option FaxStatusRow)
    → is_some (last_row (keep is_real rows) last) ≡ (is_some last || any_real rows)
unfolding last_row
last_row-is_some [] last = ground arith
last_row-is_some (r ∷ rows) last = elim (Bool-cases (is_real r)) [
  | inl e ↦
      rw (e, last_row-is_some rows (not_before last r), not_before-is_some last r) (ground arith)
  | inr e ↦ rw (e, last_row-is_some rows last) refl
]

conclude-status :
    (good last : Option FaxStatusRow) (over in_active seen_active : Bool) (now : ℕ) (d : Decision)
    → d.status ≡ "queued"
    → d.terminal ≡ false
    → ((conclude good last over in_active seen_active now d).status ≡ (
        if is_some good
        then "success"
        else if is_some last && over
        then "failed"
        else if in_active || seen_active
        then "sending"
        else "queued"))
      × ((conclude good last over in_active seen_active now d).terminal
          ≡ (is_some good || is_some last && over))
unfolding conclude succeed give_up in_flight
conclude-status (some r) last over in_active seen_active now d e t = (refl, refl)
conclude-status none none over in_active seen_active now d e t = (ground arith, ground arith)
conclude-status none (some r) over in_active seen_active now d e t = (ground arith, ground arith)

pub decide-status :
    (rows : List FaxStatusRow) (in_active active_ok seen_active : Bool) (submitted now : ℕ)
    → let d = decide rows in_active active_ok seen_active submitted now in
      let over = is_over in_active active_ok seen_active submitted now in
      (d.status ≡ (
        if any_success_row rows
        then "success"
        else if any_real rows && over
        then "failed"
        else if in_active || seen_active
        then "sending"
        else "queued"))
      × (d.terminal ≡ (any_success_row rows || any_real rows && over))
unfolding decide
decide-status rows in_active active_ok seen_active submitted now =
    let real = keep is_real rows in
    let over = is_over in_active active_ok seen_active submitted now in
    let d : Decision = record {
      status = "queued";
      attempts = length real;
      pages = best_pages real 0;
      total_pages = document_pages rows 0;
      result_text = "";
      last_err = "";
      completed = none;
      terminal = false;
      saw_active = false;
    } in
    rw⁻¹ (success_row-is_some rows, last_row-is_some rows none)
      (conclude-status (success_row real) (last_row real none) over in_active seen_active now d refl
        refl)
