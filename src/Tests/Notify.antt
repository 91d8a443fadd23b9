-- ===== src/Tests/Notify.antt =====
-- Notify strings, what they come to, and the rows of what was sent.
use gofaxserver.Prelude.{
  String, ◌≡◌, refl, true, false, ◌||◌, not, none, some, List, [], ◌∷◌, ◌++◌, if◌then◌else◌,
  Eq_text, is_some, keep, All,
}
use gofaxserver.Portal.Normalized.{IsWritable}
use gofaxserver.Prelude.Map.{find_key}
use gofaxserver.Queue.Delivery.{is_placeholder}
use gofaxserver.Notify.Payload.{build_portal_status_payload, is_call_outcome}
use gofaxserver.Portal.{
  compute_notify, normalize_custom_notify, email_full_recipients, filter_derived_report_emails,
}
use gofaxserver.Results.{FaxJobResult}
use gofaxserver.Notify.Dispatch.{answered, notify_row, Surroundings}
use gofaxserver.Queue.Process.{label_endpoint, is_placeholder_result, compute_all_attempts_failed}
use gofaxserver.Queue.Outside.{Notification}
use gofaxserver.Registry.{Registry}
use gofaxserver.Model.{blank_result, blank_job, FaxJob, TenantNumber}
use Prim.Native.Char.{Char}
use gofaxserver.Prelude.Text.{is_space}
use gofaxserver.Prelude.Cuts.{trim_left, trim_right, join_with}
use gofaxserver.Portal.Written.{IsName, parse-compute_notify}
use gofaxserver.Notify.Parsing.{parse-print_all, IsPlain, print_all}
use gofaxserver.Notify.Recipients.{process-reports, report_recipients, no_report}
use gofaxserver.Notify.Merging.{destination_keys, merged_destinations-once, HasNoRepeats}
use gofaxserver.Notify.Payload.Choice.{payload-agrees}
use gofaxserver.Results.Groups.{outcome, derive_group, latest_primary, derive_group-notify}
use gofaxserver.Notify.{
  without_repeats, resolve_side, has_text, full_recipients, merged_destinations, uncovered,
  process_notify_destinations, starts_segment, first_segment, add_parts, is_blank,
  parse_notify_string, is_word, NotifyDestination,
}

abbrev to : String → String → NotifyDestination
to type destination = record { type = type; destination = destination }

abbrev three : List NotifyDestination
three =
    to "email_report" "a@x.org;b@x.org"
    ∷ to "webhook" "https://x.org/?q=1,2"
    ∷ to "portal" "acme"
    ∷ []

three-IsPlain : All IsPlain three
unfolding is_word is_blank trim_right is_space first_segment starts_segment
three-IsPlain = (
  record {
    word = refl;
    typed = refl;
    current = refl;
    trimmed = record { left = refl; right = refl };
    full = refl;
    single = refl;
  },
  (
    record {
      word = refl;
      typed = refl;
      current = refl;
      trimmed = record { left = refl; right = refl };
      full = refl;
      single = refl;
    },
    (
      record {
        word = refl;
        typed = refl;
        current = refl;
        trimmed = record { left = refl; right = refl };
        full = refl;
        single = refl;
      },
      tt,
    ),
  ),
)

parse-print_all_example : parse_notify_string (print_all three) ≡ (three, [])
parse-print_all_example = parse-print_all three three-IsPlain

written :
    print_all three ≡ "email_report->a@x.org;b@x.org,webhook->https://x.org/?q=1,2,portal->acme"
unfolding join_with
written = refl

odd :
    parse_notify_string " email->a@x.org , nothing,portal ->acme,->x,,webhook-> "
    ≡ (to "email_report" "a@x.org , nothing" ∷ to "portal" "acme,->x," ∷ [], "webhook->" ∷ [])
unfolding parse_notify_string add_parts trim_left trim_right is_space
odd = refl

abbrev same_case : Char → Char
same_case c = c

abbrev own_number : TenantNumber
own_number = record {
  id = 3;
  tenant_id = 1;
  number = "200";
  name = "";
  header = "";
  notify = "email_report->a@x.org;b@x.org,email_full->b@x.org,portal->acme";
}

abbrev pub maps : Registry
maps = record {
  tenants = (1, record { id = 1; name = "acme"; notify = "portal->acme,email->c@x.org" }) ∷ [];
  tenant_numbers = ("200", own_number) ∷ [];
  tenant_endpoints = [];
  number_endpoints = [];
  endpoints = [];
  gateway_endpoints_acl = [];
  gateway_acl_resolved = [];
  upstream_fs_gateways = [];
}

abbrev pub received : FaxJob
received = record blank_job {
  uuid = 7;
  dst_tenant_id = 1;
  callee_number = "200";
  source_info = record { source_type = "gateway"; source = "gw"; source_id = "gw" };
  result = some (record blank_result { hangup_cause = "NORMAL_CLEARING"; success = true });
}

resolved :
    process_notify_destinations same_case received maps
    ≡ to "email_report" "a@x.org"
      ∷ to "email_full" "b@x.org"
      ∷ to "portal" "acme"
      ∷ to "email_report" "c@x.org"
      ∷ []
unfolding process_notify_destinations add_parts trim_left trim_right is_space join_with find_key
resolved = refl

process-reports_example :
    (report_recipients (process_notify_destinations same_case received maps)
      ≡ keep
          (uncovered same_case (full_recipients same_case (merged_destinations received maps)))
          (report_recipients (merged_destinations received maps)))
    × (keep no_report (process_notify_destinations same_case received maps)
        ≡ keep no_report (merged_destinations received maps))
process-reports_example = process-reports same_case received maps refl

merged_destinations-once_example :
    HasNoRepeats (destination_keys (merged_destinations received maps))
    × ((k : String)
        → has_text k (destination_keys (merged_destinations received maps)) ≡ (
            has_text k (destination_keys (resolve_side 0 "" maps))
            || has_text k (destination_keys (resolve_side 1 "200" maps))))
merged_destinations-once_example = merged_destinations-once received maps

abbrev call_outcome : FaxJob
call_outcome = record received { endpoints = label_endpoint "reception" ∷ [] }

abbrev attempt : FaxJob
attempt = record received { result = some blank_result }

abbrev pub note : Notification
note = record {
  job = received;
  results = (8, attempt) ∷ (7, call_outcome) ∷ [];
  all_attempts_failed = false;
  destinations = process_notify_destinations same_case received maps;
}

payload-agrees_example : (build_portal_status_payload note).success ≡ not note.all_attempts_failed
unfolding compute_all_attempts_failed is_call_outcome is_placeholder_result is_placeholder
payload-agrees_example =
    payload-agrees received note (refl, refl, λ e. absurd (cc)) (λ e. cc, (λ e. refl, tt)) refl

abbrev pub answers : Surroundings
answers = record {
  makes_report = true;
  converts = λ name. true;
  mail = λ address full. none;
  payload_error = λ d. none;
  post = λ url d. answered 200;
  code_text = λ code. "200";
  portal_url = "https://portal";
  start = λ d. 1;
  end = λ d. 2;
  creates = λ d. true;
}

abbrev delivered : FaxJobResult
delivered = record (notify_row answers received (to "webhook" "https://x") ("failed", "")) {
  result_type = "delivery";
  success = false;
}

abbrev pub mail_row : FaxJobResult
mail_row = notify_row answers received (to "email_report" "a@x.org") ("sent", "")

derive_group-notify_example :
    outcome (derive_group 7 ((delivered ∷ []) ++ ([] ++ mail_row ∷ []))) ≡ (
      if is_some (latest_primary (delivered ∷ []))
      then outcome (derive_group 7 (delivered ∷ []))
      else (
        mail_row.success,
        mail_row.status,
        mail_row.transferred_pages,
        mail_row.total_pages,
        (derive_group 7 (delivered ∷ [])).attempts,
      ))
unfolding notify_row
derive_group-notify_example = derive_group-notify 7 delivered mail_row [] [] (refl, tt)

-- The failed delivery counts as a success once the mail about it is sent.
turned : (derive_group 7 (delivered ∷ mail_row ∷ [])).success ≡ true
unfolding derive_group notify_row
turned = refl

acme_IsName : IsName "acme"
unfolding trim_right is_space
acme_IsName = record { trimmed = record { left = refl; right = refl }; full = refl; whole = refl }

a_IsName : IsName "a@x.org"
unfolding trim_right is_space
a_IsName = record { trimmed = record { left = refl; right = refl }; full = refl; whole = refl }

full_IsWritable : IsWritable (to "email_full" "b@x.org")
unfolding is_word is_blank trim_right is_space first_segment starts_segment
full_IsWritable = record {
  plain = record {
    word = refl;
    typed = refl;
    current = refl;
    trimmed = record { left = refl; right = refl };
    full = refl;
    single = refl;
  };
  whole = refl;
}

parse-compute_notify_example :
    parse_notify_string (
      compute_notify same_case ("a@x.org" ∷ []) "acme" (print_all (to "email_full" "b@x.org" ∷ [])))
    ≡ (to "email_report" "a@x.org" ∷ to "portal" "acme" ∷ to "email_full" "b@x.org" ∷ [], [])
unfolding filter_derived_report_emails email_full_recipients normalize_custom_notify trim_left
    trim_right is_space join_with without_repeats
parse-compute_notify_example =
    parse-compute_notify same_case ("a@x.org" ∷ []) "acme" (to "email_full" "b@x.org" ∷ [])
      (a_IsName, tt) acme_IsName (full_IsWritable, tt)
