-- ===== src/Portal/Written.antt =====
-- What the fax server reads of the notify string that the portal writes.
use gofaxserver.Prelude.{
  String, ◌≡◌, refl, sym, ap, ◌∙◌, inl, inr, true, false, not, List, [], ◌∷◌, ◌++◌, if◌then◌else◌,
  ◌==◌, Eq_nat, Eq_text, Bool-cases, is_empty, All, All-append, keep-All,
}
use gofaxserver.Portal.Normalized.{
  new_segments-prints, custom_segments-print_all, without_repeats-All, normalize-print_all,
  IsWritable,
}
use gofaxserver.Notify.Words.{all_of}
use Prim.Native.Char.{Char}
use gofaxserver.Prelude.Cuts.{
  trim_text, starts_blank-append, trim_right-append, append_full, is_empty_text, IsTrimmed,
  join_with, HasNo-append, empty_eq, has_no,
}
use gofaxserver.Portal.{
  email_full_recipients, compute_notify, filter_derived_report_emails, merge_notify_segments,
  derived_segments, custom_segments, new_segments,
}
use gofaxserver.Notify.{
  to_lower, parse_notify_string, is_word, first_segment, is_comma, has_text, without_repeats,
  NotifyDestination,
}
use Prim.Native.String
use text.Mathlib.TextLemmas.{append-nil, append_assoc}
use gofaxserver.Notify.Parsing.{parse-print_all, first_segment-has_no, prints, IsPlain, print_all}

-- What the portal derives: the reports of the assigned users, and its own push.
abbrev pub derived_destinations : List String → String → List NotifyDestination
derived_destinations emails svc_username =
    (if is_empty emails
      then []
      else record { type = "email_report"; destination = join_with ";" emails } ∷ [])
    ++ record { type = "portal"; destination = svc_username } ∷ []

-- A text without comma and without space at its ends that is not empty.
pub record IsName (s : String) : Type 0 where
  pub trimmed : IsTrimmed s
  pub full : is_empty_text s ≡ false
  pub whole : has_no is_comma s ≡ true

first_segment-IsName : (s : String) → IsName s → first_segment s ≡ (s, [])
unfolding first_segment
first_segment-IsName s h = let e = first_segment-has_no s "" h.whole in rw append-nil at e

IsWritable-IsName :
    (dest_type s : String)
    → all_of is_word dest_type ≡ true
    → is_empty_text dest_type ≡ false
    → (dest_type == "email") ≡ false
    → IsName s
    → IsWritable (record { type = dest_type; destination = s })
IsWritable-IsName dest_type s word typed current h = record {
  plain = record {
    word = word;
    typed = typed;
    current = current;
    trimmed = h.trimmed;
    full = h.full;
    single = first_segment-IsName s h;
  };
  whole = h.whole;
}

join_with-IsName :
    (e : String) (emails : List String)
    → All IsName (e ∷ emails)
    → IsName (join_with ";" (e ∷ emails))
unfolding join_with
join_with-IsName e [] (h, hs) = h
join_with-IsName e (r ∷ emails) (h, hs) =
    let rest = join_with ";" (r ∷ emails) in
    let k = join_with-IsName r emails hs in
    let full = append_full ";" rest k.full in
    record {
      trimmed = record {
        left = starts_blank-append e (String.◌++◌ ";" rest) h.full h.trimmed.left;
        right =
            trim_right-append e (String.◌++◌ ";" rest)
              (trim_right-append ";" rest k.trimmed.right k.full) full;
      };
      full = append_full e (String.◌++◌ ";" rest) full;
      whole =
          HasNo-append is_comma e (String.◌++◌ ";" rest) h.whole
            (HasNo-append is_comma ";" rest refl k.whole);
    }

derived-IsWritable :
    (emails : List String) (svc_username : String)
    → All IsName emails
    → IsName svc_username
    → All IsWritable (derived_destinations emails svc_username)
unfolding is_word
derived-IsWritable [] svc_username h k =
    (IsWritable-IsName "portal" svc_username refl refl refl k, tt)
derived-IsWritable (e ∷ emails) svc_username h k = (
  IsWritable-IsName "email_report" _ refl refl refl (join_with-IsName e emails h),
  (IsWritable-IsName "portal" svc_username refl refl refl k, tt),
)

portal_key : (s : String) → String.◌++◌ "portal->" s ≡ String.◌++◌ "portal" (String.◌++◌ "->" s)
portal_key s = append_assoc "portal" "->" s

report_key :
    (s : String) → String.◌++◌ "email_report->" s ≡ String.◌++◌ "email_report" (String.◌++◌ "->" s)
report_key s = append_assoc "email_report" "->" s

derived_segments-prints :
    (lower : Char → Char) (emails : List String) (svc_username : String)
    → IsName svc_username
    → derived_segments lower emails svc_username ≡ prints (derived_destinations emails svc_username)
unfolding derived_segments
derived_segments-prints lower [] svc_username h =
    rw (empty_eq svc_username h.full, portal_key svc_username) refl
derived_segments-prints lower (e ∷ emails) svc_username h =
    rw
      (
        empty_eq svc_username h.full,
        portal_key svc_username,
        report_key (join_with ";" (e ∷ emails)),
      )
      refl

prints-append : (ds es : List NotifyDestination) → prints (ds ++ es) ≡ prints ds ++ prints es
prints-append [] es = refl
prints-append (d ∷ ds) es = rw (prints-append ds es) refl

IsWritable-IsPlain : (ds : List NotifyDestination) → All IsWritable ds → All IsPlain ds
IsWritable-IsPlain [] h = tt
IsWritable-IsPlain (d ∷ ds) (h, hs) = (h.plain, IsWritable-IsPlain ds hs)

-- The segments that are merged behind those that are derived.
merge-prints :
    (derived custom : List NotifyDestination)
    → All IsWritable custom
    → merge_notify_segments (prints derived) (print_all custom)
      ≡ print_all (derived ++ without_repeats (prints derived) (without_repeats [] custom))
unfolding merge_notify_segments
merge-prints derived custom h =
    let once = without_repeats [] custom in
    let segments =
      ap custom_segments (normalize-print_all custom h)
      ∙ custom_segments-print_all once (without_repeats-All [] custom h) in
    let fresh =
      ap (new_segments (prints derived)) segments ∙ new_segments-prints (prints derived) once in
    ap (λ segs. join_with "," (prints derived ++ segs)) fresh
    ∙ ap (join_with ",") (sym (prints-append derived (without_repeats (prints derived) once)))

filter-IsName :
    (lower : Char → Char) (emails : List String) (custom : String)
    → All IsName emails
    → All IsName (filter_derived_report_emails lower emails custom)
unfolding filter_derived_report_emails
filter-IsName lower emails custom h =
    let full = email_full_recipients lower custom in
    elim (Bool-cases (is_empty full)) [
      | inl e ↦ rw e h
      | inr e ↦
          rw e (keep-All IsName (λ r. not (has_text (to_lower lower (trim_text r)) full)) emails h)
    ]

-- The fax server reads the string that the portal writes for a number as the portal means it: the
-- reports of those assigned users whom no full mail of the number's own segments reaches, the push to
-- the portal, and behind them the number's own destinations, each once and none that was derived
-- already; nothing is skipped. The addresses, the name of the service account and the number's own
-- destinations must hold no comma and no space at their ends and not be empty, and the types be words
-- other than "email".
pub parse-compute_notify :
    (lower : Char → Char) (emails : List String) (svc_username : String)
    (custom : List NotifyDestination)
    → All IsName emails
    → IsName svc_username
    → All IsWritable custom
    → let kept = filter_derived_report_emails lower emails (print_all custom) in
      let derived = derived_destinations kept svc_username in
      parse_notify_string (compute_notify lower emails svc_username (print_all custom))
      ≡ (derived ++ without_repeats (prints derived) (without_repeats [] custom), [])
unfolding compute_notify
parse-compute_notify lower emails svc_username custom h k c =
    let kept = filter_derived_report_emails lower emails (print_all custom) in
    let derived = derived_destinations kept svc_username in
    let own = without_repeats (prints derived) (without_repeats [] custom) in
    let written =
      ap (λ segs. merge_notify_segments segs (print_all custom))
        (derived_segments-prints lower kept svc_username k)
      ∙ merge-prints derived custom c in
    let writable =
      All-append IsWritable derived own
        (derived-IsWritable kept svc_username (filter-IsName lower emails (print_all custom) h) k)
        (without_repeats-All (prints derived) (without_repeats [] custom)
          (without_repeats-All [] custom c)) in
    ap parse_notify_string written
    ∙ parse-print_all (derived ++ own) (IsWritable-IsPlain (derived ++ own) writable)
