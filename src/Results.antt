-- ===== src/Results.antt =====
-- The rows that the server keeps of every leg of a job (gofaxserver/faxjobresult.go). The table is a
-- list, the oldest row first.
pub mod Classes
pub mod Intake
pub mod Groups
use gofaxserver.Prelude.{
  ℕ, String, Bool, true, false, ◌&&◌, not, Option, none, some, List, [], ◌∷◌, ◌++◌, ltb,
  if◌then◌else◌, ◌==◌, Eq_nat, Eq_text, is_empty, keep,
}
use gofaxserver.Queue.Process.{is_placeholder_result}
use gofaxserver.Model.{Endpoint, FaxJob, FaxResult}
use gofaxserver.Prelude.Text.{before_colon}

-- FaxJobResult, without the columns that copy fields which the records of jobs and results leave out.
pub record FaxJobResult : Type 0 where
  pub job_uuid : ℕ
  pub call_uuid : ℕ
  pub src_tenant_id : ℕ
  pub dst_tenant_id : ℕ
  pub callee_number : String
  pub caller_id_number : String
  pub result_type : String
  pub attempt_number : ℕ
  pub endpoint_id : ℕ
  pub endpoint_type : String
  pub gateway : String
  pub npages : ℕ
  pub status : String
  pub tot_dials : ℕ
  pub tot_tries : ℕ
  pub ts : Option ℕ
  pub is_bridge : Bool
  pub start_ts : Option ℕ
  pub end_ts : Option ℕ
  pub hangup_cause : String
  pub total_pages : ℕ
  pub transferred_pages : ℕ
  pub result_text : String
  pub success : Bool
  pub negotiate_count : ℕ
  pub t38_status : String

-- What classifyFaxResult returns.
pub record Leg : Type 0 where
  pub result_type : String
  pub endpoint_id : ℕ
  pub endpoint_type : String
  pub attempt_number : ℕ
  pub gateway : String

-- The attempt that the counters of a job tell.
abbrev attempt_of : FaxJob → ℕ
attempt_of job =
    if ltb 0 job.tot_dials then job.tot_dials else if ltb 0 job.tot_tries then job.tot_tries else 1

abbrev or_else : String → String → String
or_else gateway other = if gateway == "" then other else gateway

-- The leg of a job that is neither bridged nor new, by the first of its endpoints.
unfoldable pub classify_endpoints : FaxJob → List Endpoint → Leg
classify_endpoints job [] = record {
  result_type = "reception";
  endpoint_id = 0;
  endpoint_type = "";
  attempt_number = 1;
  gateway = or_else job.gateway job.source_info.source;
}
classify_endpoints job (ep ∷ eps) =
    let to_gateway = ep.endpoint_type == "gateway" in
    record {
      result_type = if to_gateway then "transmission" else "delivery";
      endpoint_id = ep.id;
      endpoint_type = ep.endpoint_type;
      attempt_number = attempt_of job;
      gateway = if to_gateway then or_else job.gateway (before_colon ep.endpoint) else job.gateway;
    }

-- classifyFaxResult
unfoldable pub classify_fax_result : FaxJob → Leg
classify_fax_result job =
    if is_placeholder_result job
    then record {
      result_type = "submission";
      endpoint_id = 0;
      endpoint_type = "";
      attempt_number = 0;
      gateway = "";
    }
    else if job.is_bridge
    then record {
      result_type = "bridge";
      endpoint_id = 0;
      endpoint_type = "";
      attempt_number = 1;
      gateway = or_else job.gateway job.source_info.source;
    }
    else classify_endpoints job job.endpoints

-- timePtr
abbrev pub time_ptr : ℕ → Option ℕ
time_ptr t = if t == 0 then none else some t

-- The clock, and whether json.Marshal of the source and each statement on the table succeeds.
pub record StoreEnv : Type 0 where
  pub now : ℕ
  pub marshals : Bool
  pub counts : Bool
  pub creates : Bool
  pub updates : Bool

-- The row before the result is filled in.
unfoldable pub new_row : FaxJob → FaxJobResult
new_row job =
    let leg = classify_fax_result job in
    record {
      job_uuid = job.uuid;
      call_uuid = if job.call_uuid == 0 then job.uuid else job.call_uuid;
      src_tenant_id = job.src_tenant_id;
      dst_tenant_id = job.dst_tenant_id;
      callee_number = job.callee_number;
      caller_id_number = job.caller_id_number;
      result_type = leg.result_type;
      attempt_number = leg.attempt_number;
      endpoint_id = leg.endpoint_id;
      endpoint_type = leg.endpoint_type;
      gateway = leg.gateway;
      npages = job.npages;
      status = job.status;
      tot_dials = job.tot_dials;
      tot_tries = job.tot_tries;
      ts = time_ptr job.ts;
      is_bridge = job.is_bridge;
      start_ts = none;
      end_ts = none;
      hangup_cause = "";
      total_pages = 0;
      transferred_pages = 0;
      result_text = "";
      success = false;
      negotiate_count = 0;
      t38_status = "";
    }

abbrev pub is_leg_of : ℕ → FaxJobResult → Bool
is_leg_of j row = row.job_uuid == j && not (row.result_type == "submission")

-- The state of the intake: queued, or processed if the job has a leg already.
unfoldable pub intake : StoreEnv → List FaxJobResult → FaxJobResult → FaxJobResult
intake env table row =
    if not (row.result_type == "submission")
    then row
    else if env.counts && not (is_empty (keep (is_leg_of row.job_uuid) table))
    then record row {
      status = "processed";
      result_text = "processed";
      success = true;
      end_ts = some env.now;
    }
    else record row { status = "queued" }

unfoldable pub fill_in : Option FaxResult → FaxJobResult → FaxJobResult
fill_in none row = row
fill_in (some res) row = record row {
  start_ts = time_ptr res.start_ts;
  end_ts = time_ptr res.end_ts;
  hangup_cause = res.hangup_cause;
  total_pages = res.total_pages;
  transferred_pages = res.transferred_pages;
  result_text = res.result_text;
  success = res.success;
  negotiate_count = res.negotiate_count;
  t38_status = res.t38_status;
}

-- The success of a bridged call by its hangup cause.
unfoldable pub infer_bridge : FaxJob → FaxJobResult → FaxJobResult
infer_bridge job row =
    if job.is_bridge && not row.success && row.hangup_cause == "NORMAL_CLEARING"
    then record row {
      success = true;
      result_text = if row.result_text == "" then "Bridge completed" else row.result_text;
    }
    else row

-- The rows that markSubmissionProcessed updates, and what it makes of them.
abbrev pub is_queued : ℕ → FaxJobResult → Bool
is_queued j row =
    row.job_uuid == j && row.result_type == "submission" && row.result_text == "queued"

abbrev pub processed : ℕ → FaxJobResult → FaxJobResult
processed now row = record row {
  success = true;
  status = "processed";
  result_text = "processed";
  end_ts = some now;
}

unfoldable pub update_queued : ℕ → ℕ → List FaxJobResult → List FaxJobResult
update_queued now j [] = []
update_queued now j (row ∷ rows) =
    let rest = update_queued now j rows in
    if is_queued j row then processed now row ∷ rest else row ∷ rest

-- markSubmissionProcessed
unfoldable pub mark_submission_processed : StoreEnv → ℕ → List FaxJobResult → List FaxJobResult
mark_submission_processed env j table = if env.updates then update_queued env.now j table else table

-- The row that storeQueueFaxResult creates.
abbrev pub row_of : StoreEnv → FaxJob → List FaxJobResult → FaxJobResult
row_of env job table = infer_bridge job (fill_in job.result (intake env table (new_row job)))

-- The end of storeQueueFaxResult: the row is created, and the intake marked if it is another leg.
unfoldable pub store_row :
    StoreEnv → ℕ → FaxJobResult → List FaxJobResult → Bool × List FaxJobResult
store_row env j row table =
    let stored = table ++ row ∷ [] in
    if not (env.marshals && env.creates)
    then (false, table)
    else if not (row.result_type == "submission")
    then (true, mark_submission_processed env j stored)
    else (true, stored)

-- storeQueueFaxResult; the Boolean tells whether it returned nil
unfoldable pub store_queue_fax_result :
    StoreEnv → FaxJob → List FaxJobResult → Bool × List FaxJobResult
store_queue_fax_result env job table = store_row env job.uuid (row_of env job table) table
