-- ===== src/Notify/Dispatch.antt =====
-- processNotifyDestinationsAsync and recordNotifyDelivery of gofaxserver/notify.go: what is sent to
-- each destination, and the row that is kept of it. The destinations are served at the same time in
-- the program, and the answers that each gets are a function of it; the rows are written in the order
-- of the list.
use gofaxserver.Prelude.{
  ℕ, String, Bool, false, ◌&&◌, ◌||◌, not, Option, none, some, List, [], ◌∷◌, ◌++◌, ltb, leb,
  if◌then◌else◌, ◌==◌, Eq_nat, Eq_text, is_empty,
}
use gofaxserver.Results.{FaxJobResult}
use gofaxserver.Queue.Outside.{Notification}
use gofaxserver.Prelude.Text.{trim_right_slash}
use gofaxserver.Notify.{NotifyDestination}
pub mod Rows
use Prim.Native.String
use gofaxserver.Model.{FaxJob}

-- What a POST comes to: the error, or the status of the answer.
pub data Reply : Type 0 where
  no_reply : String → Reply
  answered : ℕ → Reply

-- The answers of the surroundings; a text is that of an error.
pub record Surroundings : Type 0 where
  -- whether GenerateFaxResultsPDF succeeds
  pub makes_report : Bool
  -- whether tiffToPdf succeeds on a file
  pub converts : String → Bool
  -- SendEmailWithAttachment to a destination, with the fax attached or not
  pub mail : String → Bool → Option String
  -- the steps of "webhook" and "portal", and of "webhook_form", that come before the request
  pub payload_error : NotifyDestination → Option String
  pub post : String → NotifyDestination → Reply
  -- fmt.Sprintf("%d", code)
  pub code_text : ℕ → String
  pub portal_url : String
  pub start : NotifyDestination → ℕ
  pub end : NotifyDestination → ℕ
  -- whether DB.Create succeeds
  pub creates : NotifyDestination → Bool

-- fmt.Sprintf("%s -> %s: %s", label, dest.Destination, text)
unfoldable pub detail : String → NotifyDestination → String → String
detail label d text =
    String.◌++◌ label (String.◌++◌ " -> " (String.◌++◌ d.destination (String.◌++◌ ": " text)))

abbrev mailed : String → NotifyDestination → Option String → String × String
mailed label d none = ("sent", detail label d "sent")
mailed label d (some err) = ("failed", detail label d err)

abbrev is_success_code : ℕ → Bool
is_success_code code = leb 200 code && ltb code 300

unfoldable pub posted : (ℕ → String) → String → NotifyDestination → Reply → String × String
unfolding detail
posted code_text label d (no_reply err) = ("failed", detail label d err)
posted code_text label d (answered code) =
    let http = String.◌++◌ "HTTP " (code_text code) in
    if is_success_code code
    then ("sent", detail label d (String.◌++◌ "sent (" (String.◌++◌ http ")")))
    else ("failed", detail label d http)

module _ (e : Surroundings) where
  -- The POST of "webhook", "webhook_form" and "portal", once its payload is made.
  unfoldable pub post_to : String → NotifyDestination → Option String → String × String
  unfolding posted
  post_to url d (some err) = ("failed", detail d.type d err)
  post_to url d none = posted e.code_text d.type d (e.post url d)

  -- The switch on the type of a destination: the outcome and the detail.
  unfoldable pub dispatch : Notification → String → NotifyDestination → String × String
  unfolding post_to trim_right_slash
  dispatch n first_page d =
      let full = mailed d.type d (e.mail d.destination (e.converts n.job.file_name)) in
      let base = trim_right_slash e.portal_url in
      let prepared = e.payload_error d in
      if d.type == "email" || d.type == "email_report"
      then mailed "email_report" d (e.mail d.destination false)
      else if d.type == "email_full"
      then full
      else if d.type == "email_full_failure"
      then (if not n.all_attempts_failed
          then ("skipped", detail d.type d "skipped, not all attempts failed")
          else full)
      else if d.type == "webhook"
      then post_to d.destination d prepared
      else if d.type == "webhook_form"
      then (if first_page == ""
          then ("skipped", detail d.type d "skipped, no first-page PDF available")
          else post_to d.destination d prepared)
      else if d.type == "portal"
      then (if base == ""
          then ("skipped", detail d.type d "skipped, portal.url is empty")
          else post_to (String.◌++◌ base (String.◌++◌ "/portal/api/notify/" d.destination)) d
              prepared)
      else if d.type == "gateway"
      then ("skipped", detail d.type d "skipped, not implemented")
      else ("skipped", detail d.type d "skipped, unknown notify destination type")

  -- recordNotifyDelivery: the row that it creates
  unfoldable pub notify_row : FaxJob → NotifyDestination → String × String → FaxJobResult
  notify_row f d out = record {
    job_uuid = f.uuid;
    call_uuid = f.uuid;
    src_tenant_id = f.src_tenant_id;
    dst_tenant_id = f.dst_tenant_id;
    callee_number = f.callee_number;
    caller_id_number = f.caller_id_number;
    result_type = "notify";
    attempt_number = 0;
    endpoint_id = 0;
    endpoint_type = d.type;
    gateway = "";
    npages = 0;
    status = out.0;
    tot_dials = 0;
    tot_tries = 0;
    ts = none;
    is_bridge = f.is_bridge;
    start_ts = some (e.start d);
    end_ts = some (e.end d);
    hangup_cause = "";
    total_pages = 0;
    transferred_pages = 0;
    result_text = out.1;
    success = out.0 == "sent";
    negotiate_count = 0;
    t38_status = "";
  }

  -- The rows of the destinations.
  unfoldable pub notify_rows : Notification → String → List NotifyDestination → List FaxJobResult
  unfolding dispatch notify_row
  notify_rows n first_page [] = []
  notify_rows n first_page (d ∷ ds) =
      let rest = notify_rows n first_page ds in
      if e.creates d then notify_row n.job d (dispatch n first_page d) ∷ rest else rest

  -- processNotifyDestinationsAsync
  unfoldable pub process_notify_destinations_async :
      Notification → List NotifyDestination → String → List FaxJobResult → List FaxJobResult
  unfolding notify_rows
  process_notify_destinations_async n ds first_page table =
      if is_empty ds || not e.makes_report then table else table ++ notify_rows n first_page ds
