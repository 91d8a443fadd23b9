-- ===== src/Results/Intake.antt =====
-- The row of a job's intake.
use gofaxserver.Prelude.{
  ℕ, ◌≡◌, refl, ap, ◌∙◌, inl, inr, true, false, ◌&&◌, some, List, [], ◌∷◌, ◌++◌, arith, ◌==◌,
  Eq_nat, Eq_text, beq_refl, Bool-cases, is_empty, keep, All,
}
use gofaxserver.Results.Classes.{classify-submission}
use gofaxserver.Queue.Delivery.{is_placeholder}
use gofaxserver.Queue.Process.{is_placeholder_result}
use gofaxserver.Results.{
  store_row, is_leg_of, classify_fax_result, row_of, new_row, StoreEnv, is_queued, intake,
  mark_submission_processed, FaxJobResult, fill_in, store_queue_fax_result, update_queued,
  infer_bridge,
}
use gofaxserver.Model.{FaxJob, FaxResult}

row_of-result_type :
    (env : StoreEnv) (job : FaxJob) (table : List FaxJobResult)
    → (row_of env job table).result_type ≡ (classify_fax_result job).result_type
unfolding infer_bridge fill_in intake new_row
row_of-result_type env job table = ground arith

update_queued-none :
    (now j : ℕ) (rows : List FaxJobResult)
    → All (λ row. is_queued j row ≡ false) (update_queued now j rows)
unfolding update_queued
update_queued-none now j [] = tt
update_queued-none now j (row ∷ rows) = ground (arith, update_queued-none now j rows)

store_row-leg :
    (env : StoreEnv) (k : ℕ) (row : FaxJobResult) (table : List FaxJobResult)
    → (row.result_type == "submission") ≡ false
    → env.updates ≡ true
    → (store_row env k row table).0 ≡ true
    → All (λ r. is_queued k r ≡ false) (store_row env k row table).1
unfolding store_row mark_submission_processed
store_row-leg env k row table other works stored = elim (Bool-cases (env.marshals && env.creates)) [
  | inr e ↦ absurd (let no : false ≡ true = rw (store_row, e) at stored in cc)
  | inl e ↦
      rw (store_row, e, other, mark_submission_processed, works)
        (update_queued-none env.now k (table ++ row ∷ []))
]

-- Once a leg of a job is stored, other than its submission, and the update of the intake succeeds, no
-- submission of the job is queued any more.
pub store-processed :
    (env : StoreEnv) (job : FaxJob) (table : List FaxJobResult)
    → is_placeholder_result job ≡ false
    → env.updates ≡ true
    → (store_queue_fax_result env job table).0 ≡ true
    → All (λ row. is_queued job.uuid row ≡ false) (store_queue_fax_result env job table).1
unfolding store_queue_fax_result
store-processed env job table real works stored =
    let row = row_of env job table in
    let other : (row.result_type == "submission") ≡ false =
      ap (λ t. t == "submission") (row_of-result_type env job table)
      ∙ classify-submission job
      ∙ real in
    store_row-leg env job.uuid row table other works stored

abbrev in_flight : ℕ → FaxJobResult → FaxJobResult
in_flight now row = record row {
  status = "processed";
  result_text = "processed";
  success = true;
  end_ts = some now;
}

new_row-submission :
    (job : FaxJob) → is_placeholder_result job ≡ true → (new_row job).result_type ≡ "submission"
unfolding new_row classify_fax_result
new_row-submission job e = rw (new_row, classify_fax_result, e) refl

new_row-job_uuid : (job : FaxJob) → (new_row job).job_uuid ≡ job.uuid
unfolding new_row
new_row-job_uuid job = refl

intake-late :
    (env : StoreEnv) (table : List FaxJobResult) (row : FaxJobResult)
    → row.result_type ≡ "submission"
    → env.counts ≡ true
    → is_empty (keep (is_leg_of row.job_uuid) table) ≡ false
    → intake env table row ≡ in_flight env.now row
unfolding intake
intake-late env table row sub counts legs =
    rw (intake, ap (λ t. t == "submission") sub, counts, legs) refl

store_row-submission :
    (env : StoreEnv) (k : ℕ) (row : FaxJobResult) (table : List FaxJobResult)
    → (row.result_type == "submission") ≡ true
    → (env.marshals && env.counts && env.creates) ≡ true
    → store_row env k row table ≡ (true, table ++ row ∷ [])
unfolding store_row
store_row-submission env k row table sub works =
    let m : env.marshals ≡ true = ground (arith, works) in
    let c : env.creates ≡ true = ground (arith, works) in rw (store_row, m, c, sub) refl

-- A submission that is stored when its job has a leg already is stored as queued and not successful,
-- with the status processed: what the row says of the leg is overwritten by the placeholder.
pub late_submission-queued :
    (env : StoreEnv) (job : FaxJob) (res : FaxResult) (table : List FaxJobResult)
    → job.result ≡ some res
    → res.hangup_cause ≡ "WEBHOOK"
    → res.result_text ≡ "queued"
    → res.success ≡ false
    → job.is_bridge ≡ false
    → (env.marshals && env.counts && env.creates) ≡ true
    → is_empty (keep (is_leg_of job.uuid) table) ≡ false
    → (row : FaxJobResult) × (store_queue_fax_result env job table ≡ (true, table ++ row ∷ []))
      × (row.status ≡ "processed")
      × (row.success ≡ false)
      × (is_queued job.uuid row ≡ true)
unfolding store_queue_fax_result infer_bridge fill_in is_placeholder_result is_placeholder new_row
late_submission-queued env job res table here cause text failed bridged works legs =
    let held : is_placeholder_result job ≡ true = rw (is_placeholder_result, here, cause) refl in
    let sub = new_row-submission job held in
    let late =
      intake-late env table (new_row job) sub (ground (arith, works))
        (rw (new_row-job_uuid job) legs) in
    let filled = fill_in (some res) (in_flight env.now (new_row job)) in
    let same : row_of env job table ≡ filled =
      ap (λ x. infer_bridge job (fill_in job.result x)) late ∙ rw (here, bridged) refl in
    let sub' = ap (λ t. t == "submission") sub in
    (
      filled,
      ap (λ row. store_row env job.uuid row table) same
          ∙ store_row-submission env job.uuid filled table sub' works,
      refl,
      failed,
      rw (sub', text, beq_refl job.uuid) refl,
    )
