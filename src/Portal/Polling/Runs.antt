-- ===== src/Portal/Polling/Runs.antt =====
-- What becomes of the portal's record of a job under any ticks and pushes.
use gofaxserver.Prelude.{
  ℕ, ◌≡◌, refl, sym, ◌∙◌, inl, inr, Bool, true, false, ◌&&◌, ◌||◌, Option, none, some, List, arith,
  eq_iff, ◌==◌, Eq_nat, Eq_text, Bool-cases, Option-cases, is_some,
}
use gofaxserver.Portal.Polling.Notes.{decide-status, any_success_row}
use gofaxserver.Notify.Payload.{PortalStatusPayload}
use gofaxserver.Portal.Polling.{
  is_stale, pushed_status, write_back, apply_decision, decide, Decision, FaxStatusRow, in_flight,
  give_up, succeed, conclude, is_due, handle_status_notify, is_terminal, Polled, tick_job,
  PortalJob,
}

-- A tick that nothing interrupts, or a push.
pub data Step : PortalJob → PortalJob → Type 0 where
  tick : (p : Polled) (now : ℕ) (job : PortalJob) → Step job (tick_job p now job)
  push :
      (p : PortalStatusPayload) (now : ℕ) (job : PortalJob)
      → Step job (handle_status_notify p now job)

pub data Run (job : PortalJob) : PortalJob → Type 0 where
  here : Run job job
  more : {a b : PortalJob} → Run job a → Step a b → Run job b

-- A job has a time of completion just where it is over.
abbrev pub IsSettled : PortalJob → Type 0
IsSettled job = is_some job.completed_at ≡ is_terminal job

is_due-terminal : (now : ℕ) (job : PortalJob) → is_terminal job ≡ true → is_due now job ≡ false
is_due-terminal now job h = elim (Bool-cases (job.status == "success")) [
  | inl e ↦ rw ((eq_iff job.status "success").0 e) refl
  | inr e ↦
      let failed : (job.status == "failed") ≡ true = rw e at h in
      rw ((eq_iff job.status "failed").0 failed) refl
]

Step-terminal : {a b : PortalJob} → Step a b → is_terminal a ≡ true → b ≡ a
unfolding tick_job handle_status_notify
Step-terminal (tick p now job) h = rw (is_due-terminal now job h) refl
Step-terminal (push p now job) h = rw h refl

-- Under ticks and pushes in any order, no tick of them interrupted between its reading of the job and
-- its writing, a job that is over stays as it is.
pub Run-terminal : {a b : PortalJob} → Run a b → is_terminal a ≡ true → b ≡ a
Run-terminal here h = refl
Run-terminal (more r step) h = let same = Run-terminal r h in Step-terminal step (rw same h) ∙ same

-- A decision is final just where its status is, and then has a time.
record IsConcluded (d : Decision) : Type 0 where
  final : d.terminal ≡ (d.status == "success" || d.status == "failed")
  timed : d.terminal ≡ true → is_some d.completed ≡ true

in_flight-IsConcluded :
    (in_active seen_active : Bool) (d : Decision)
    → d.status ≡ "queued"
    → d.terminal ≡ false
    → IsConcluded (in_flight in_active seen_active d)
unfolding in_flight
in_flight-IsConcluded true seen_active d e t = record {
  final = t;
  timed = λ x. absurd (let no : false ≡ true = rw t at x in cc);
}
in_flight-IsConcluded false true d e t = record {
  final = t;
  timed = λ x. absurd (let no : false ≡ true = rw t at x in cc);
}
in_flight-IsConcluded false false d e t = record {
  final = rw (t, e) refl;
  timed = λ x. absurd (let no : false ≡ true = rw t at x in cc);
}

conclude-IsConcluded :
    (good last : Option FaxStatusRow) (over in_active seen_active : Bool) (now : ℕ) (d : Decision)
    → d.status ≡ "queued"
    → d.terminal ≡ false
    → IsConcluded (conclude good last over in_active seen_active now d)
unfolding conclude succeed give_up
conclude-IsConcluded (some r) last over in_active seen_active now d e t = record {
  final = refl;
  timed = λ x. refl;
}
conclude-IsConcluded none none over in_active seen_active now d e t =
    in_flight-IsConcluded in_active seen_active d e t
conclude-IsConcluded none (some r) true in_active seen_active now d e t = record {
  final = refl;
  timed = λ x. refl;
}
conclude-IsConcluded none (some r) false in_active seen_active now d e t =
    in_flight-IsConcluded in_active seen_active d e t

decide-IsConcluded :
    (rows : List FaxStatusRow) (in_active active_ok seen_active : Bool) (submitted now : ℕ)
    → IsConcluded (decide rows in_active active_ok seen_active submitted now)
unfolding decide
decide-IsConcluded rows in_active active_ok seen_active submitted now =
    conclude-IsConcluded _ _ _ in_active seen_active now _ refl refl

apply_decision-IsSettled :
    (d : Decision) (now : ℕ) (job : PortalJob)
    → IsConcluded d
    → is_terminal job ≡ false
    → IsSettled job
    → IsSettled (apply_decision d now job)
unfolding apply_decision
apply_decision-IsSettled d now job h open_job settled = elim (Bool-cases d.terminal) [
  | inl e ↦ rw e (h.timed e ∙ sym e ∙ h.final)
  | inr e ↦ rw e (settled ∙ open_job ∙ sym e ∙ h.final)
]

pushed_status-IsSettled :
    (p : PortalStatusPayload) (now : ℕ) (job : PortalJob)
    → is_some job.completed_at ≡ false
    → IsSettled (pushed_status p now job)
unfolding pushed_status
pushed_status-IsSettled p now job unset = elim (Bool-cases p.success) [
  | inl e ↦ rw (pushed_status, e) refl
  | inr e ↦ elim (Bool-cases p.all_attempts_failed) [
    | inl e' ↦ rw (pushed_status, e, e') refl
    | inr e' ↦ rw (pushed_status, e, e') unset
  ]
]

Step-IsSettled : {a b : PortalJob} → Step a b → is_terminal a ≡ false → IsSettled a → IsSettled b
unfolding tick_job write_back handle_status_notify
Step-IsSettled (tick p now job) open_job settled = elim (Bool-cases (is_due now job)) [
  | inr e ↦ rw e settled
  | inl e ↦ elim (Bool-cases (is_stale now job)) [
    | inl e' ↦ rw (e, e') refl
    | inr e' ↦ elim (Option-cases p.rows) [
      | inl gone ↦ rw (e, e', gone) settled
      | inr (rows, known) ↦
          rw (e, e', known)
            (apply_decision-IsSettled _ now job
              (decide-IsConcluded rows p.in_active p.active_ok job.seen_active job.submitted_at now)
              open_job settled)
    ]
  ]
]
Step-IsSettled (push p now job) open_job settled =
    let counted : PortalJob = record job {
      attempts = p.attempts;
      pages = p.transferred_pages;
      total_pages = p.total_pages;
      updated_at = now;
    } in
    rw open_job (pushed_status-IsSettled p now counted (settled ∙ open_job))

-- Under ticks and pushes in any order, no tick of them interrupted between its reading of the job and
-- its writing, a job that has a time of completion just if it is over keeps to that.
pub Run-IsSettled : {a b : PortalJob} → Run a b → IsSettled a → IsSettled b
Run-IsSettled here h = h
Run-IsSettled (more {a} {b} r step) h = elim (Bool-cases (is_terminal a)) [
  | inl over ↦ rw (Step-terminal step over) (Run-IsSettled r h)
  | inr open_job ↦ Step-IsSettled step open_job (Run-IsSettled r h)
]

apply_decision-status :
    (d : Decision) (now : ℕ) (job : PortalJob) → (apply_decision d now job).status ≡ d.status
unfolding apply_decision
apply_decision-status d now job = ground arith

-- A tick that loaded a job before a push called it successful, and that read the rows before a success
-- was among them, while the tracker still lists the job, writes afterwards that it is being sent: the
-- job is no longer over.
pub write_back-after_push :
    (p : Polled) (pushed : PortalStatusPayload) (t now : ℕ) (job : PortalJob)
    (rows : List FaxStatusRow)
    → is_terminal job ≡ false
    → is_stale now job ≡ false
    → pushed.success ≡ true
    → p.rows ≡ some rows
    → any_success_row rows ≡ false
    → (p.in_active && p.active_ok) ≡ true
    → ((handle_status_notify pushed t job).status ≡ "success")
      × ((write_back p now job (handle_status_notify pushed t job)).status ≡ "sending")
unfolding handle_status_notify pushed_status write_back
write_back-after_push p pushed t now job rows open_job fresh good known none_yet active =
    let listed : p.in_active ≡ true = ground (arith, active) in
    let read : p.active_ok ≡ true = ground (arith, active) in
    let d = decide rows p.in_active p.active_ok job.seen_active job.submitted_at now in
    let in_flight : d.status ≡ "sending" =
      (decide-status rows p.in_active p.active_ok job.seen_active job.submitted_at now).0
      ∙ rw (none_yet, listed, read) (ground arith) in
    (
      rw (open_job, good) refl,
      rw (fresh, known)
          (apply_decision-status d now (handle_status_notify pushed t job) ∙ in_flight),
    )
