-- ===== src/Upload/Intake.antt =====
-- What the intake of an uploaded fax looks like to the portal.
use gofaxserver.Prelude.{String, ◌≡◌, List, [], Eq_nat, Eq_text}
use gofaxserver.Upload.Idle.{Idle}
use gofaxserver.Notify.{NotifyDestination}
use gofaxserver.Queue.Outside.{Notification}
use gofaxserver.Notify.Dispatch.{Surroundings, process_notify_destinations_async}
use gofaxserver.Results.Groups.{legs_of}
use gofaxserver.Model.{FaxJob}
use gofaxserver.Registry.{Registry}
use gofaxserver.Results.{mark_submission_processed, FaxJobResult, StoreEnv, store_queue_fax_result}

-- The rows that the fax server can have come to while no call of a job was attempted: the tick that
-- routeFax puts out is stored, with whatever failures, the intake is marked processed, as processFax
-- does when it takes the job from the queue, notifications are sent, and rows of other jobs come and go.
pub data IntakeOnly (tick : FaxJob) : List FaxJobResult → Type 0 where
  nothing : (table : List FaxJobResult) → legs_of tick.uuid table ≡ [] → IntakeOnly tick table
  stores :
      {table : List FaxJobResult} (env : StoreEnv)
      → IntakeOnly tick table
      → IntakeOnly tick (store_queue_fax_result env tick table).1
  marks :
      {table : List FaxJobResult} (env : StoreEnv)
      → IntakeOnly tick table
      → IntakeOnly tick (mark_submission_processed env tick.uuid table)
  notifies :
      {table : List FaxJobResult} (e : Surroundings) (n : Notification)
      (ds : List NotifyDestination) (first_page : String)
      → IntakeOnly tick table
      → IntakeOnly tick (process_notify_destinations_async e n ds first_page table)
  others :
      {table : List FaxJobResult} (after : List FaxJobResult)
      → legs_of tick.uuid after ≡ legs_of tick.uuid table
      → IntakeOnly tick table
      → IntakeOnly tick after
