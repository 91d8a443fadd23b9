-- ===== src/Model.antt =====
-- The records that the components pass to one another: endpoints (gofaxserver/endpoints.go), fax
-- jobs (gofaxserver/faxjob.go), fax results (gofaxlib/faxresult.go) and the numbers and tenants of
-- gofaxserver/tenants.go. Times are nanoseconds since an origin, the zero time is 0; a UUID is a
-- number, and uuid.Nil is 0. Fields that only reach the log or a database column are left out.
use gofaxserver.Prelude.{ℕ, String, Bool, false, Option, none, List, []}

pub record Endpoint : Type 0 where
  pub id : ℕ
  pub scope : String
  pub type_id : ℕ
  pub endpoint_type : String
  pub endpoint : String
  pub priority : ℕ
  pub bridge : Bool

pub record Tenant : Type 0 where
  pub id : ℕ
  pub name : String
  pub notify : String

pub record TenantNumber : Type 0 where
  pub id : ℕ
  pub tenant_id : ℕ
  pub number : String
  pub name : String
  pub header : String
  pub notify : String

-- `page_bad_rows` holds the field BadRows of each page result.
pub record FaxResult : Type 0 where
  pub uuid : ℕ
  pub start_ts : ℕ
  pub end_ts : ℕ
  pub hangup_cause : String
  pub total_pages : ℕ
  pub transferred_pages : ℕ
  pub result_text : String
  pub success : Bool
  pub negotiate_count : ℕ
  pub t38_status : String
  pub page_bad_rows : List ℕ

-- &gofaxlib.FaxResult{}
abbrev pub blank_result : FaxResult
blank_result = record {
  uuid = 0;
  start_ts = 0;
  end_ts = 0;
  hangup_cause = "";
  total_pages = 0;
  transferred_pages = 0;
  result_text = "";
  success = false;
  negotiate_count = 0;
  t38_status = "";
  page_bad_rows = [];
}

pub record FaxSourceInfo : Type 0 where
  pub source_type : String
  pub source : String
  pub source_id : String

pub record FaxJob : Type 0 where
  pub uuid : ℕ
  pub call_uuid : ℕ
  pub src_tenant_id : ℕ
  pub dst_tenant_id : ℕ
  pub callee_number : String
  pub caller_id_number : String
  pub caller_id_name : String
  pub file_name : String
  pub identifier : String
  pub header : String
  pub endpoints : List Endpoint
  pub result : Option FaxResult
  pub source_info : FaxSourceInfo
  pub gateway : String
  pub npages : ℕ
  pub status : String
  pub tot_dials : ℕ
  pub tot_tries : ℕ
  pub ts : ℕ
  pub is_bridge : Bool
  pub force_t38_off : Bool
  pub notify_only : Bool

abbrev pub blank_job : FaxJob
blank_job = record {
  uuid = 0;
  call_uuid = 0;
  src_tenant_id = 0;
  dst_tenant_id = 0;
  callee_number = "";
  caller_id_number = "";
  caller_id_name = "";
  file_name = "";
  identifier = "";
  header = "";
  endpoints = [];
  result = none;
  source_info = record { source_type = ""; source = ""; source_id = "" };
  gateway = "";
  npages = 0;
  status = "";
  tot_dials = 0;
  tot_tries = 0;
  ts = 0;
  is_bridge = false;
  force_t38_off = false;
  notify_only = false;
}
