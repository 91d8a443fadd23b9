-- ===== src/Upload/Idle.antt =====
-- Rows of no attempt among those that the fax server keeps (gofaxserver/faxjobresult.go), and what
-- keeps them so.
use gofaxserver.Prelude.{
  ℕ, String, ◌≡◌, refl, ◌∙◌, inl, inr, false, ◌&&◌, ◌||◌, not, some, List, [], ◌∷◌, ◌++◌, arith,
  ◌==◌, Eq_nat, Eq_text, Bool-cases, is_empty, All, keep-All,
}
use gofaxserver.Notify.Dispatch.Rows.{notify_rows-IsNotify}
use gofaxserver.Notify.{NotifyDestination}
use gofaxserver.Queue.Outside.{Notification}
use gofaxserver.Notify.Dispatch.{notify_rows, Surroundings, process_notify_destinations_async}
use gofaxserver.Results.Groups.{IsNotify, legs_of}
use gofaxserver.Portal.Polling.Notes.{status_row, any_success_row, any_real, status_rows}
use gofaxserver.Portal.Polling.{is_real}
use gofaxserver.Model.{FaxResult, FaxJob}
use gofaxserver.Results.{
  is_queued, row_of, mark_submission_processed, update_queued, FaxJobResult, new_row, StoreEnv,
  intake, fill_in, infer_bridge, store_row,
}

-- A row that is of no attempt, and a table that has only such rows of a job.
abbrev pub Idle : FaxJobResult → Type 0
Idle row = is_real (status_row row) ≡ false

abbrev pub AllIdle : ℕ → List FaxJobResult → Type 0
AllIdle id table = All Idle (legs_of id table)

-- The part of a job that the rows show.
abbrev pub CarriesPlaceholder : FaxJob → Type 0
CarriesPlaceholder job =
    (res : FaxResult) × (job.result ≡ some res) × (res.hangup_cause ≡ "WEBHOOK")

infer_bridge-hangup_cause :
    (job : FaxJob) (row : FaxJobResult) → (infer_bridge job row).hangup_cause ≡ row.hangup_cause
unfolding infer_bridge
infer_bridge-hangup_cause job row = ground arith

pub row_of-Idle :
    (env : StoreEnv) (job : FaxJob) (table : List FaxJobResult)
    → CarriesPlaceholder job
    → Idle (row_of env job table)
unfolding fill_in
row_of-Idle env job table (res, has, marked) =
    let row = intake env table (new_row job) in
    let same : (row_of env job table).hangup_cause ≡ "WEBHOOK" =
      infer_bridge-hangup_cause job (fill_in job.result row) ∙ rw has marked in
    rw same refl

update_queued-Idle :
    (now j id : ℕ) (table : List FaxJobResult)
    → AllIdle id table
    → AllIdle id (update_queued now j table)
unfolding update_queued
update_queued-Idle now j id [] h = tt
update_queued-Idle now j id (row ∷ rows) h = elim (Bool-cases (is_queued j row)) [
  | inl q ↦ elim (Bool-cases (row.job_uuid == id)) [
    | inl e ↦
        let (a, b) : Idle row × AllIdle id rows = rw e at h in
        rw (q, e) (a, update_queued-Idle now j id rows b)
    | inr e ↦ rw (q, e) (update_queued-Idle now j id rows (rw e at h))
  ]
  | inr q ↦ elim (Bool-cases (row.job_uuid == id)) [
    | inl e ↦
        let (a, b) : Idle row × AllIdle id rows = rw e at h in
        rw (q, e) (a, update_queued-Idle now j id rows b)
    | inr e ↦ rw (q, e) (update_queued-Idle now j id rows (rw e at h))
  ]
]

pub mark-Idle :
    (env : StoreEnv) (j id : ℕ) (table : List FaxJobResult)
    → AllIdle id table
    → AllIdle id (mark_submission_processed env j table)
unfolding mark_submission_processed
mark-Idle env j id table h = elim (Bool-cases env.updates) [
  | inl e ↦ rw e (update_queued-Idle env.now j id table h)
  | inr e ↦ rw e h
]

append-Idle :
    (id : ℕ) (table rows : List FaxJobResult)
    → AllIdle id table
    → All Idle rows
    → AllIdle id (table ++ rows)
append-Idle id [] rows h k = keep-All Idle (λ r. r.job_uuid == id) rows k
append-Idle id (row ∷ table) rows h k = elim (Bool-cases (row.job_uuid == id)) [
  | inl e ↦
      let (a, b) : Idle row × AllIdle id table = rw e at h in
      rw e (a, append-Idle id table rows b k)
  | inr e ↦ rw e (append-Idle id table rows (rw e at h) k)
]

pub store_row-Idle :
    (env : StoreEnv) (j id : ℕ) (row : FaxJobResult) (table : List FaxJobResult)
    → Idle row
    → AllIdle id table
    → AllIdle id (store_row env j row table).1
unfolding store_row
store_row-Idle env j id row table q h =
    let stored = append-Idle id table (row ∷ []) h (q, tt) in
    elim (Bool-cases (env.marshals && env.creates)) [
      | inr fails ↦ rw fails h
      | inl works ↦ elim (Bool-cases (row.result_type == "submission")) [
        | inl intake_row ↦ rw (works, intake_row) stored
        | inr leg ↦ rw (works, leg) (mark-Idle env j id (table ++ row ∷ []) stored)
      ]
    ]

notes-Idle : (rows : List FaxJobResult) → All IsNotify rows → All Idle rows
notes-Idle [] h = tt
notes-Idle (row ∷ rows) (note, h) = (rw note (ground arith), notes-Idle rows h)

pub dispatch-Idle :
    (e : Surroundings) (n : Notification) (ds : List NotifyDestination) (first_page : String)
    (id : ℕ) (table : List FaxJobResult)
    → AllIdle id table
    → AllIdle id (process_notify_destinations_async e n ds first_page table)
unfolding process_notify_destinations_async
dispatch-Idle e n ds first_page id table h = elim (Bool-cases (is_empty ds || not e.makes_report)) [
  | inl idle ↦ rw idle h
  | inr busy ↦
      let notes = notes-Idle _ (notify_rows-IsNotify e n first_page ds) in
      rw busy (append-Idle id table (notify_rows e n first_page ds) h notes)
]

pub nothing_real :
    (rows : List FaxJobResult)
    → All Idle rows
    → (any_real (status_rows rows) ≡ false) × (any_success_row (status_rows rows) ≡ false)
nothing_real [] h = (refl, refl)
nothing_real (row ∷ rows) (q, h) =
    let (a, b) = nothing_real rows h in (rw (q, a) refl, rw (q, b) refl)
