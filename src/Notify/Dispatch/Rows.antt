-- ===== src/Notify/Dispatch/Rows.antt =====
-- The rows that are kept of the notifications, and the outcome of the job beside them.
use gofaxserver.Prelude.{
  ℕ, String, ◌≡◌, refl, inl, inr, true, false, ◌||◌, not, List, [], ◌∷◌, ◌==◌, Eq_nat, Eq_text,
  Bool-cases, is_empty, is_some, All, keep-All, keep-append,
}
use gofaxserver.Results.Groups.{
  derive_group-primary, derive_group, outcome, legs_of, latest_primary, IsNotify,
}
use gofaxserver.Notify.{NotifyDestination}
use gofaxserver.Queue.Outside.{Notification}
use gofaxserver.Results.{FaxJobResult}
use gofaxserver.Notify.Dispatch.{
  notify_row, Surroundings, dispatch, process_notify_destinations_async, notify_rows,
}

pub notify_rows-IsNotify :
    (e : Surroundings) (n : Notification) (first_page : String) (ds : List NotifyDestination)
    → All IsNotify (notify_rows e n first_page ds)
unfolding notify_rows
notify_rows-IsNotify e n first_page [] = tt
notify_rows-IsNotify e n first_page (d ∷ ds) = elim (Bool-cases (e.creates d)) [
  | inl made ↦ rw made (refl, notify_rows-IsNotify e n first_page ds)
  | inr lost ↦ rw lost (notify_rows-IsNotify e n first_page ds)
]

-- Whatever is sent to whichever destinations, and whatever comes of it, the outcome that is listed for
-- a job stays as it was, for every job that has a reception, a bridge or a transmission among its rows.
pub dispatch-outcome :
    (e : Surroundings) (n : Notification) (ds : List NotifyDestination) (first_page : String)
    (table : List FaxJobResult) (id : ℕ)
    → is_some (latest_primary (legs_of id table)) ≡ true
    → outcome
        (derive_group id (legs_of id (process_notify_destinations_async e n ds first_page table)))
      ≡ outcome (derive_group id (legs_of id table))
unfolding process_notify_destinations_async
dispatch-outcome e n ds first_page table id primary =
    let rows = notify_rows e n first_page ds in
    elim (Bool-cases (is_empty ds || not e.makes_report)) [
      | inl idle ↦ rw idle refl
      | inr busy ↦
          rw (busy, keep-append (λ r. r.job_uuid == id) table rows)
            (derive_group-primary id (legs_of id table) (legs_of id rows)
              (keep-All IsNotify (λ r. r.job_uuid == id) rows
                (notify_rows-IsNotify e n first_page ds))
              primary)
    ]

-- A mail about a failure that counts as sent.
abbrev IsFailureMail : FaxJobResult → Type 0
IsFailureMail row = (row.endpoint_type ≡ "email_full_failure") × (row.success ≡ true)

notify_row-gate :
    (e : Surroundings) (n : Notification) (first_page : String) (d : NotifyDestination)
    → IsFailureMail (notify_row e n.job d (dispatch e n first_page d))
    → n.all_attempts_failed ≡ true
unfolding dispatch notify_row
notify_row-gate e n first_page d (type, sent) = elim (Bool-cases n.all_attempts_failed) [
  | inl all_failed ↦ all_failed
  | inr some_sent ↦ absurd (let never : false ≡ true = rw (dispatch, type, some_sent) at sent in cc)
]

-- No mail of the type email_full_failure counts as sent unless all attempts failed.
notify_rows-gate :
    (e : Surroundings) (n : Notification) (first_page : String) (ds : List NotifyDestination)
    → All (λ row. IsFailureMail row → n.all_attempts_failed ≡ true) (notify_rows e n first_page ds)
unfolding notify_rows
notify_rows-gate e n first_page [] = tt
notify_rows-gate e n first_page (d ∷ ds) =
    let rest = notify_rows-gate e n first_page ds in
    elim (Bool-cases (e.creates d)) [
      | inl made ↦ rw made (notify_row-gate e n first_page d, rest)
      | inr lost ↦ rw lost rest
    ]
