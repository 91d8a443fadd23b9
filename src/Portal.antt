-- ===== src/Portal.antt =====
-- The notify string that the portal writes for a number (portal/internal/api/handlers_admin.go), and
-- that the fax server reads.
pub mod Normalized
pub mod Written
pub mod Polling
pub mod Limiter
use gofaxserver.Prelude.{
  ℕ, String, Bool, false, ◌||◌, not, Option, none, some, List, [], ◌∷◌, ◌++◌, nat_eq, if◌then◌else◌,
  ◌==◌, Eq_nat, Eq_text, is_empty, keep,
}
use gofaxserver.Prelude.Cuts.{join_with, cut_arrow, trim_text, split_parts}
use Prim.Native.Char.{Char}
use Prim.Native.String
use gofaxserver.Notify.{is_comma, to_lower, has_text}

abbrev pub is_semicolon : ℕ → Bool
is_semicolon c = nat_eq c b';'

-- strings.Split(s, ",")
abbrev pub split_commas : String → List String
split_commas s = let parts = split_parts is_comma s in parts.0 ∷ parts.1

-- Whether a segment is a type, an arrow and a destination, and neither is blank.
unfoldable pub is_pair : Option (String × String) → Bool
is_pair none = false
is_pair (some cut) = not (trim_text cut.0 == "" || trim_text cut.1 == "")

-- A segment in front of those that are left, nothing where one of them is in error.
abbrev pub add_to : String → Option (List String) → Option (List String)
add_to seg none = none
add_to seg (some out) = some (seg ∷ out)

-- The loop of normalizeCustomNotify; nothing stands for its error.
unfoldable pub normalize_segments : List String → List String → Option (List String)
unfolding is_pair cut_arrow
normalize_segments seen [] = some []
normalize_segments seen (part ∷ parts) =
    let seg = trim_text part in
    let known = seg == "" || has_text seg seen in
    let rest = normalize_segments (if known then seen else seg ∷ seen) parts in
    if seg == ""
    then rest
    else if not (is_pair (cut_arrow seg))
    then none
    else if known
    then rest
    else add_to seg rest

abbrev pub joined : Option (List String) → Option String
joined none = none
joined (some out) = some (join_with "," out)

-- normalizeCustomNotify
unfoldable pub normalize_custom_notify : String → Option String
unfolding normalize_segments split_parts join_with
normalize_custom_notify raw =
    let trimmed = trim_text raw in
    if trimmed == "" then some "" else joined (normalize_segments [] (split_commas trimmed))

-- The segments of a normalized string, none of an error or of nothing.
abbrev pub custom_segments : Option String → List String
custom_segments none = []
custom_segments (some custom) = if custom == "" then [] else split_commas custom

-- The segments that were not seen before.
unfoldable pub new_segments : List String → List String → List String
new_segments seen [] = []
new_segments seen (seg ∷ segs) =
    let known = has_text seg seen in
    let rest = new_segments (if known then seen else seg ∷ seen) segs in
    if known then rest else seg ∷ rest

-- mergeNotifySegments
unfoldable pub merge_notify_segments : List String → String → String
unfolding new_segments normalize_custom_notify
merge_notify_segments derived custom_notify =
    join_with ","
      (derived ++ new_segments derived (custom_segments (normalize_custom_notify custom_notify)))

module _ (lower : Char → Char) where
  unfoldable pub lowered_parts : List String → List String
  unfolding to_lower
  lowered_parts [] = []
  lowered_parts (part ∷ parts) =
      let rest = lowered_parts parts in
      let r = to_lower lower (trim_text part) in if r == "" then rest else r ∷ rest

  unfoldable pub full_of : Option (String × String) → List String
  unfolding lowered_parts split_parts
  full_of none = []
  full_of (some cut) =
      let parts = split_parts is_semicolon cut.1 in
      if trim_text cut.0 == "email_full" then lowered_parts (parts.0 ∷ parts.1) else []

  unfoldable pub full_of_all : List String → List String
  unfolding full_of
  full_of_all [] = []
  full_of_all (seg ∷ segs) = full_of (cut_arrow seg) ++ full_of_all segs

  -- emailFullRecipients
  unfoldable pub email_full_recipients : String → List String
  unfolding full_of_all normalize_custom_notify
  email_full_recipients custom_notify =
      full_of_all (custom_segments (normalize_custom_notify custom_notify))

  -- filterDerivedReportEmails
  unfoldable pub filter_derived_report_emails : List String → String → List String
  unfolding email_full_recipients
  filter_derived_report_emails emails custom_notify =
      let full = email_full_recipients custom_notify in
      if is_empty full
      then emails
      else keep (λ e. not (has_text (to_lower lower (trim_text e)) full)) emails

  -- The segments that the portal derives itself.
  unfoldable pub derived_segments : List String → String → List String
  derived_segments emails svc_username =
      (if is_empty emails then [] else String.◌++◌ "email_report->" (join_with ";" emails) ∷ [])
      ++ (if svc_username == "" then [] else String.◌++◌ "portal->" svc_username ∷ [])

  -- computeNotify; `emails` are those that the query on users and numbers returns
  unfoldable pub compute_notify : List String → String → String → String
  unfolding filter_derived_report_emails derived_segments merge_notify_segments
  compute_notify emails svc_username custom_notify =
      merge_notify_segments
        (derived_segments (filter_derived_report_emails emails custom_notify) svc_username)
        custom_notify
