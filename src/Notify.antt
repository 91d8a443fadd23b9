-- ===== src/Notify.antt =====
-- The notify strings of numbers and tenants (gofaxserver/notify.go): how they are parsed, and which
-- destinations a job has. The texts are code points, as Go's strings are where they are valid UTF-8.
pub mod Words
pub mod Parsing
pub mod Recipients
pub mod Merging
pub mod Payload
pub mod Dispatch
use gofaxserver.Prelude.{
  ℕ, String, Bool, false, ◌&&◌, ◌||◌, not, Option, none, some, List, [], ◌∷◌, ◌++◌, leb, nat_eq,
  if◌then◌else◌, ◌==◌, Eq_nat, Eq_text, is_empty, keep,
}
use Prim.Native.Char.{Char, code}
use Prim.Native.String
use gofaxserver.Prelude.Text.{has_prefix}
use gofaxserver.Prelude.Map.{find_key}
use gofaxserver.Prelude.Cuts.{trim_text, cut_arrow, split_parts, join_with}
use gofaxserver.Model.{TenantNumber, FaxJob, Tenant}
use gofaxserver.Registry.{Registry, get_number}

pub record NotifyDestination : Type 0 where
  pub type : String
  pub destination : String

-- The classes \s and [a-zA-Z_] of a regular expression.
unfoldable pub is_blank : ℕ → Bool
is_blank c = nat_eq c 9 || nat_eq c 10 || nat_eq c 12 || nat_eq c 13 || nat_eq c 32

unfoldable pub is_word : ℕ → Bool
is_word c = leb b'a' c && leb c b'z' || leb b'A' c && leb c b'Z' || nat_eq c b'_'

module _ (class : ℕ → Bool) where
  -- What is left behind the characters of the class.
  unfoldable pub drop_class : String → String
  drop_class String.[] = ""
  drop_class (String.◌∷◌ c s) =
      let rest = drop_class s in if class (code c) then rest else String.◌∷◌ c s

  abbrev pub starts_with : String → Bool
  starts_with String.[] = false
  starts_with (String.◌∷◌ c s) = class (code c)

-- notifySegmentStart.MatchString(s): ^\s*[a-zA-Z_]+\s*->
unfoldable pub starts_segment : String → Bool
unfolding drop_class is_blank is_word has_prefix
starts_segment s =
    let word = drop_class is_blank s in
    starts_with is_word word && has_prefix (drop_class is_blank (drop_class is_word word)) "->"

-- The segment in front of the first comma that begins a segment, and the segments behind it.
unfoldable pub first_segment : String → String × List String
unfolding starts_segment
first_segment String.[] = ("", [])
first_segment (String.◌∷◌ c s) =
    let rest = first_segment s in
    if nat_eq (code c) b',' && starts_segment s
    then ("", rest.0 ∷ rest.1)
    else (String.◌∷◌ c rest.0, rest.1)

-- splitNotifySegments
abbrev pub split_notify_segments : String → List String
split_notify_segments s = let segments = first_segment s in segments.0 ∷ segments.1

abbrev pub Parsed : Type 0
Parsed = List NotifyDestination × List String

-- The legacy type of a report.
abbrev pub normal_type : String → String
normal_type dest_type = if dest_type == "email" then "email_report" else dest_type

-- What a trimmed segment adds, by what strings.SplitN makes of it.
unfoldable pub add_parts : String → Option (String × String) → Parsed → Parsed
add_parts segment none parsed = (parsed.0, segment ∷ parsed.1)
add_parts segment (some parts) parsed =
    let dest_type = trim_text parts.0 in
    let dest_value = trim_text parts.1 in
    if dest_type == "" || dest_value == ""
    then (parsed.0, segment ∷ parsed.1)
    else (record { type = normal_type dest_type; destination = dest_value } ∷ parsed.0, parsed.1)

abbrev pub add_segment : String → Parsed → Parsed
add_segment segment parsed = add_parts segment (cut_arrow segment) parsed

unfoldable pub parse_segments : List String → Parsed
unfolding add_parts cut_arrow
parse_segments [] = ([], [])
parse_segments (s ∷ segments) =
    let rest = parse_segments segments in
    let segment = trim_text s in if segment == "" then rest else add_segment segment rest

-- parseNotifyString: the destinations, and the segments that are skipped
unfoldable pub parse_notify_string : String → Parsed
unfolding first_segment parse_segments
parse_notify_string s = parse_segments (split_notify_segments s)

abbrev pub is_comma : ℕ → Bool
is_comma c = nat_eq c b','

abbrev pub ends_recipient : ℕ → Bool
ends_recipient c = nat_eq c b';' || nat_eq c b','

-- The trimmed parts that are not empty; strings.FieldsFunc leaves the empty ones out already.
unfoldable pub recipients_of : List String → List String
recipients_of [] = []
recipients_of (part ∷ parts) =
    let rest = recipients_of parts in let r = trim_text part in if r == "" then rest else r ∷ rest

-- splitEmailRecipients
unfoldable pub split_email_recipients : String → List String
unfolding split_parts recipients_of
split_email_recipients dest =
    let parts = split_parts ends_recipient dest in recipients_of (parts.0 ∷ parts.1)

-- What a number's or a tenant's notify string appends, empty or not.
unfoldable pub destinations_of : String → List NotifyDestination
unfolding parse_notify_string
destinations_of notify = if notify == "" then [] else (parse_notify_string notify).0

unfoldable pub number_destinations : Option TenantNumber → List NotifyDestination
unfolding destinations_of
number_destinations none = []
number_destinations (some tn) = destinations_of tn.notify

unfoldable pub tenant_destinations : Option Tenant → List NotifyDestination
unfolding destinations_of
tenant_destinations none = []
tenant_destinations (some t) = destinations_of t.notify

-- resolveSide
unfoldable pub resolve_side : ℕ → String → Registry → List NotifyDestination
unfolding number_destinations tenant_destinations
resolve_side tenant_id number g =
    number_destinations (get_number number g) ++ tenant_destinations (find_key tenant_id g.tenants)

abbrev pub destination_key : NotifyDestination → String
destination_key d = String.◌++◌ d.type (String.◌++◌ "->" d.destination)

abbrev pub has_text : String → List String → Bool
has_text s [] = false
has_text s (t ∷ ts) = s == t || has_text s ts

-- The destinations whose key was not seen before.
unfoldable pub without_repeats : List String → List NotifyDestination → List NotifyDestination
without_repeats seen [] = []
without_repeats seen (d ∷ ds) =
    let known = has_text (destination_key d) seen in
    let rest = without_repeats (if known then seen else destination_key d ∷ seen) ds in
    if known then rest else d ∷ rest

-- The destinations of both sides, without repeats.
unfoldable pub merged_destinations : FaxJob → Registry → List NotifyDestination
unfolding resolve_side without_repeats
merged_destinations f g = without_repeats [] (
    resolve_side f.src_tenant_id f.caller_id_number g
    ++ resolve_side f.dst_tenant_id f.callee_number g)

abbrev pub is_report : NotifyDestination → Bool
is_report d = d.type == "email_report" || d.type == "email"

-- `lower` is unicode.ToLower.
module _ (lower : Char → Char) where
  -- strings.ToLower
  unfoldable pub to_lower : String → String
  to_lower String.[] = ""
  to_lower (String.◌∷◌ c s) = String.◌∷◌ (lower c) (to_lower s)

  unfoldable pub lowered : List String → List String
  unfolding to_lower
  lowered [] = []
  lowered (r ∷ rs) = to_lower r ∷ lowered rs

  -- The keys of fullRecipients.
  unfoldable pub full_recipients : List NotifyDestination → List String
  unfolding lowered split_email_recipients
  full_recipients [] = []
  full_recipients (d ∷ ds) =
      let rest = full_recipients ds in
      if d.type == "email_full"
      then lowered (split_email_recipients d.destination) ++ rest
      else rest

  -- The recipients that no full mail reaches.
  abbrev pub uncovered : List String → String → Bool
  uncovered full r = not (has_text (to_lower r) full)

  unfoldable pub strip_covered : List String → List NotifyDestination → List NotifyDestination
  unfolding split_email_recipients
  strip_covered full [] = []
  strip_covered full (d ∷ ds) =
      let rest = strip_covered full ds in
      let kept = keep (uncovered full) (split_email_recipients d.destination) in
      if not (is_report d)
      then d ∷ rest
      else if is_empty kept
      then rest
      else record d { destination = join_with ";" kept } ∷ rest

  -- processNotifyDestinations
  unfoldable pub process_notify_destinations : FaxJob → Registry → List NotifyDestination
  unfolding merged_destinations full_recipients strip_covered
  process_notify_destinations f g =
      let deduped = merged_destinations f g in
      let full = full_recipients deduped in
      let filtered = if is_empty full then deduped else strip_covered full deduped in
      if f.is_bridge then [] else filtered
