-- ===== src/Notify/Recipients.antt =====
-- Who gets a report by mail once the recipients of full mails are taken out.
use gofaxserver.Prelude.{
  String, ◌≡◌, refl, sym, inl, inr, Bool, true, false, not, List, [], ◌∷◌, ◌++◌, arith,
  if◌then◌else◌, ◌==◌, Eq_nat, Eq_text, Bool-cases, is_empty, keep, All, keep-append, empty_is_nil,
}
use gofaxserver.Registry.{Registry}
use gofaxserver.Model.{FaxJob}
use gofaxserver.Notify.{
  merged_destinations, full_recipients, uncovered, is_report, ends_recipient,
  process_notify_destinations, strip_covered, NotifyDestination, split_email_recipients,
  recipients_of,
}
use gofaxserver.Prelude.Cuts.{
  trim_right, trim_left, split_parts, trim_text-HasNo, trim_text-IsTrimmed, split_parts-join_with,
  trim_text, join_with, split_parts-HasNo, trim_text-same, has_no, HasNo, IsTrimmed,
}
use Prim.Native.Char.{Char}

-- A recipient as splitEmailRecipients returns it.
record IsRecipient (r : String) : Type 0 where
  trimmed : IsTrimmed r
  whole : has_no ends_recipient r ≡ true
  full : (r == "") ≡ false

recipients_of-IsRecipient :
    (parts : List String) → All (HasNo ends_recipient) parts → All IsRecipient (recipients_of parts)
unfolding recipients_of
recipients_of-IsRecipient [] h = tt
recipients_of-IsRecipient (part ∷ parts) (h, hs) = elim (Bool-cases (trim_text part == "")) [
  | inl e ↦ rw e (recipients_of-IsRecipient parts hs)
  | inr e ↦ rw e (
    record {
      trimmed = trim_text-IsTrimmed part;
      whole = trim_text-HasNo ends_recipient part h;
      full = e;
    },
    recipients_of-IsRecipient parts hs,
  )
]

recipients_of-same : (rs : List String) → All IsRecipient rs → recipients_of rs ≡ rs
unfolding recipients_of
recipients_of-same [] h = refl
recipients_of-same (r ∷ rs) (h, hs) =
    rw (trim_text-same r h.trimmed, h.full, recipients_of-same rs hs) refl

split-IsRecipient : (s : String) → All IsRecipient (split_email_recipients s)
unfolding split_email_recipients
split-IsRecipient s =
    let parts = split_parts ends_recipient s in
    recipients_of-IsRecipient (parts.0 ∷ parts.1) (split_parts-HasNo ends_recipient s)

All-HasNo : (rs : List String) → All IsRecipient rs → All (HasNo ends_recipient) rs
All-HasNo [] h = tt
All-HasNo (r ∷ rs) (h, hs) = (h.whole, All-HasNo rs hs)

nothing_split : split_email_recipients (join_with ";" []) ≡ []
unfolding split_email_recipients trim_left trim_right join_with
nothing_split = refl

-- Recipients that are joined by semicolons are split again.
split-join_with :
    (rs : List String) → All IsRecipient rs → split_email_recipients (join_with ";" rs) ≡ rs
unfolding split_email_recipients
split-join_with [] h = nothing_split
split-join_with (r ∷ rs) (h, hs) =
    rw (split_parts-join_with ends_recipient ";" r rs refl h.whole (All-HasNo rs hs))
      (recipients_of-same (r ∷ rs) (h, hs))

keep-IsRecipient :
    (p : String → Bool) (rs : List String) → All IsRecipient rs → All IsRecipient (keep p rs)
keep-IsRecipient p [] h = tt
keep-IsRecipient p (r ∷ rs) (h, hs) = elim (Bool-cases (p r)) [
  | inl e ↦ rw e (h, keep-IsRecipient p rs hs)
  | inr e ↦ rw e (keep-IsRecipient p rs hs)
]

keep-all : {A : Type 0} (p : A → Bool) (xs : List A) → ((x : A) → p x ≡ true) → keep p xs ≡ xs
keep-all p [] h = refl
keep-all p (x ∷ xs) h = rw (h x, keep-all p xs h) refl

-- Who is sent a report only, in order.
abbrev pub report_recipients : List NotifyDestination → List String
report_recipients [] = []
report_recipients (d ∷ ds) =
    let rest = report_recipients ds in
    if is_report d then split_email_recipients d.destination ++ rest else rest

abbrev pub no_report : NotifyDestination → Bool
no_report d = not (is_report d)

module _ (lower : Char → Char) where
  strip_covered-reports :
      (full : List String) (ds : List NotifyDestination)
      → report_recipients (strip_covered lower full ds)
        ≡ keep (uncovered lower full) (report_recipients ds)
  unfolding strip_covered
  strip_covered-reports full [] = refl
  strip_covered-reports full (d ∷ ds) =
      let rs = split_email_recipients d.destination in
      let kept = keep (uncovered lower full) rs in
      let ih = strip_covered-reports full ds in
      elim (Bool-cases (is_report d)) [
        | inr e ↦ rw (e, e, ih) refl
        | inl e ↦
            let joined =
              split-join_with kept (keep-IsRecipient _ rs (split-IsRecipient d.destination)) in
            rw (e, keep-append (uncovered lower full) rs (report_recipients ds))
              (elim (Bool-cases (is_empty kept)) [
                | inl none_left ↦ rw (none_left, empty_is_nil kept none_left) ih
                | inr some_left ↦ rw (some_left, e, joined, ih) refl
              ])
      ]

  strip_covered-others :
      (full : List String) (ds : List NotifyDestination)
      → keep no_report (strip_covered lower full ds) ≡ keep no_report ds
  unfolding strip_covered
  strip_covered-others full [] = refl
  strip_covered-others full (d ∷ ds) = ground (arith, strip_covered-others full ds)

  filtered-reports :
      (full : List String) (ds : List NotifyDestination)
      → (report_recipients (if is_empty full then ds else strip_covered lower full ds)
          ≡ keep (uncovered lower full) (report_recipients ds))
        × (keep no_report (if is_empty full then ds else strip_covered lower full ds)
            ≡ keep no_report ds)
  filtered-reports [] ds =
      (sym (keep-all (uncovered lower []) (report_recipients ds) (λ r. refl)), refl)
  filtered-reports (k ∷ full) ds =
      (strip_covered-reports (k ∷ full) ds, strip_covered-others (k ∷ full) ds)

  -- The reports of a call that is not bridged go, in order, to just those recipients of the merged
  -- report destinations whose address, in lower case, is not one that a full mail goes to; and every
  -- other destination, full mails and portals among them, is left as it was merged, in order.
  pub process-reports :
      (f : FaxJob) (g : Registry)
      → f.is_bridge ≡ false
      → (report_recipients (process_notify_destinations lower f g)
          ≡ keep
              (uncovered lower (full_recipients lower (merged_destinations f g)))
              (report_recipients (merged_destinations f g)))
        × (keep no_report (process_notify_destinations lower f g)
            ≡ keep no_report (merged_destinations f g))
  unfolding process_notify_destinations
  process-reports f g call =
      let merged = merged_destinations f g in
      rw call (filtered-reports (full_recipients lower merged) merged)
