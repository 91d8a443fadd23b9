-- ===== src/Tests/Results.antt =====
-- The rows of one job that came through the web API.
use gofaxserver.Prelude.{◌≡◌, refl, true, false, some, List, [], ◌∷◌, ◌++◌, All}
use gofaxserver.Results.Intake.{late_submission-queued, store-processed}
use gofaxserver.Queue.Delivery.{is_placeholder}
use gofaxserver.Queue.Process.{is_placeholder_result}
use gofaxserver.Model.{FaxJob, FaxResult, blank_job, blank_result}
use gofaxserver.Results.{
  classify_endpoints, new_row, intake, fill_in, infer_bridge, classify_fax_result, update_queued,
  mark_submission_processed, store_row, StoreEnv, FaxJobResult, store_queue_fax_result, is_queued,
}

abbrev pub calm : StoreEnv
calm = record { now = 9; marshals = true; counts = true; creates = true; updates = true }

abbrev waiting : FaxResult
waiting = record blank_result { start_ts = 1; hangup_cause = "WEBHOOK"; result_text = "queued" }

abbrev submitted : FaxJob
submitted = record blank_job { uuid = 7; status = "WEBHOOK"; result = some waiting }

abbrev pub sent : FaxJob
sent = record blank_job {
  uuid = 7;
  call_uuid = 8;
  tot_dials = 1;
  result = some (record blank_result { success = true; result_text = "OK" });
}

abbrev pub sent_first : List FaxJobResult
sent_first = (store_queue_fax_result calm sent []).1

late_submission-queued_example :
    (row : FaxJobResult) × (store_queue_fax_result calm submitted sent_first
      ≡ (true, sent_first ++ row ∷ []))
    × (row.status ≡ "processed")
    × (row.success ≡ false)
    × (is_queued 7 row ≡ true)
unfolding store_queue_fax_result store_row mark_submission_processed update_queued infer_bridge
    fill_in intake new_row classify_fax_result classify_endpoints is_placeholder_result
    is_placeholder
late_submission-queued_example =
    late_submission-queued calm submitted waiting sent_first refl refl refl refl refl refl refl

abbrev pub submitted_first : List FaxJobResult
submitted_first = (store_queue_fax_result calm submitted []).1

store-processed_example :
    All (λ row. is_queued 7 row ≡ false) (store_queue_fax_result calm sent submitted_first).1
unfolding store_queue_fax_result store_row is_placeholder_result is_placeholder infer_bridge fill_in
    intake new_row classify_fax_result classify_endpoints mark_submission_processed update_queued
store-processed_example = store-processed calm sent submitted_first refl refl refl
