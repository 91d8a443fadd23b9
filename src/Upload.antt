-- ===== src/Upload.antt =====
-- handleDocumentUpload of gofaxserver/web.go: the fax that a tenant's user submits. What the request,
-- the conversion to TIFF and the clock give is an argument.
pub mod Intake
pub mod Idle
use gofaxserver.Prelude.{
  ℕ, String, Bool, ◌||◌, not, Option, none, some, if◌then◌else◌, ◌==◌, Eq_nat, Eq_text,
}
use gofaxserver.Registry.{get_number, Registry}
use gofaxserver.Model.{blank_result, blank_job, TenantNumber, FaxJob}

pub record UploadRequest : Type 0 where
  -- whether the form has a file, and its extension in lower case
  pub has_file : Bool
  pub extension : String
  -- whether the head of the file can be read, what http.DetectContentType says of it, and whether the
  -- file can be rewound
  pub reads : Bool
  pub content_type : String
  pub rewinds : Bool
  -- the new UUIDs of the document and of its result
  pub document_id : ℕ
  pub result_id : ℕ
  -- pdfToTiff and countTiffPages, nothing on an error
  pub tiff : Option String
  pub pages : Option ℕ
  pub callee_number : String
  pub caller_number : String
  pub source : String
  pub user_id : String
  pub now : ℕ

pub data UploadError : Type 0 where
  bad_request internal_error : UploadError

-- What the handler does: it answers with an error, it panics, or it puts a job on the routing channel.
pub data Handled : Type 0 where
  refused : UploadError → Handled
  panics : Handled
  enqueued : FaxJob → Handled

abbrev is_allowed_extension : String → Bool
is_allowed_extension ext = ext == ".pdf" || ext == ".tif" || ext == ".tiff"

abbrev is_allowed_content : String → Bool
is_allowed_content t = t == "application/pdf" || t == "image/tiff" || t == "image/x-tiff"

-- The checks of the file, in their order.
unfoldable pub check_file : UploadRequest → Option UploadError
check_file u =
    if not u.has_file
    then some bad_request
    else if not (is_allowed_extension u.extension)
    then some bad_request
    else if not u.reads
    then some internal_error
    else if not (is_allowed_content u.content_type)
    then some bad_request
    else if not u.rewinds
    then some internal_error
    else none

abbrev or_zero : Option ℕ → ℕ
or_zero none = 0
or_zero (some n) = n

-- The job, with the placeholder result that marks its origin.
unfoldable pub uploaded_job : UploadRequest → String → FaxJob
uploaded_job u file = record blank_job {
  uuid = u.document_id;
  callee_number = u.callee_number;
  caller_id_number = u.caller_number;
  file_name = file;
  status = "WEBHOOK";
  result = some (record blank_result {
    uuid = u.result_id;
    start_ts = u.now;
    hangup_cause = "WEBHOOK";
    result_text = "queued";
    total_pages = or_zero u.pages;
  });
  source_info = record {
    source_type = "webhook";
    source = if u.source == "" then "user" else u.source;
    source_id = u.user_id;
  };
  ts = u.now;
}

-- What follows the checks: the conversion, and the lookup of the caller's number. A number of another
-- tenant leads to err.Error() of a nil error.
unfoldable pub submit :
    UploadRequest → ℕ → Option UploadError → Option String → Option TenantNumber → Handled
unfolding uploaded_job
submit u tenant_id (some err) tiff number = refused err
submit u tenant_id none none number = refused internal_error
submit u tenant_id none (some file) none = refused internal_error
submit u tenant_id none (some file) (some tn) =
    if tn.tenant_id == tenant_id then enqueued (uploaded_job u file) else panics

-- handleDocumentUpload, for the authenticated tenant
unfoldable pub handle_document_upload : UploadRequest → ℕ → Registry → Handled
unfolding check_file submit
handle_document_upload u tenant_id g =
    submit u tenant_id (check_file u) u.tiff (get_number u.caller_number g)
