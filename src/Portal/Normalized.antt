-- ===== src/Portal/Normalized.antt =====
-- What the portal makes of a number's own destinations.
use gofaxserver.Prelude.{
  String, ◌≡◌, refl, ap, ◌∙◌, inl, inr, true, false, some, List, [], ◌∷◌, Bool-cases, All,
}
use gofaxserver.Notify.Words.{IsTrimmed-word, starts_blank-word, cut_arrow-word, has_no-word}
use gofaxserver.Prelude.Cuts.{
  trim_right-append, append_full, is_empty_text, trim_left, split_parts-join_with, starts_blank,
  trim_right, IsTrimmed, join_with, cut_arrow-append, HasNo-append, empty_eq, trim_text-same,
  cut_arrow, HasNo, has_no,
}
use gofaxserver.Portal.{
  joined, custom_segments, normalize_custom_notify, split_commas, is_pair, normalize_segments,
  new_segments,
}
use gofaxserver.Notify.{destination_key, is_comma, has_text, without_repeats, NotifyDestination}
use Prim.Native.String
use text.Mathlib.TextLemmas.{append_assoc}
use gofaxserver.Notify.Parsing.{print_full, print-IsTrimmed, prints, IsPlain, print, print_all}

-- A destination that can be written, without a comma.
pub record IsWritable (d : NotifyDestination) : Type 0 where
  pub plain : IsPlain d
  pub whole : has_no is_comma d.destination ≡ true

print-HasNo : (d : NotifyDestination) → IsWritable d → HasNo is_comma (print d)
print-HasNo d h =
    HasNo-append is_comma d.type (String.◌++◌ "->" d.destination) (has_no-word d.type h.plain.word)
      (HasNo-append is_comma "->" d.destination refl h.whole)

prints-HasNo : (ds : List NotifyDestination) → All IsWritable ds → All (HasNo is_comma) (prints ds)
prints-HasNo [] h = tt
prints-HasNo (d ∷ ds) (h, hs) = (print-HasNo d h, prints-HasNo ds hs)

pub without_repeats-All :
    (seen : List String) (ds : List NotifyDestination)
    → All IsWritable ds
    → All IsWritable (without_repeats seen ds)
unfolding without_repeats
without_repeats-All seen [] h = tt
without_repeats-All seen (d ∷ ds) (h, hs) = elim (Bool-cases (has_text (destination_key d) seen)) [
  | inl e ↦ rw e (without_repeats-All seen ds hs)
  | inr e ↦ rw e (h, without_repeats-All (destination_key d ∷ seen) ds hs)
]

pub new_segments-prints :
    (seen : List String) (ds : List NotifyDestination)
    → new_segments seen (prints ds) ≡ prints (without_repeats seen ds)
unfolding new_segments without_repeats
new_segments-prints seen [] = refl
new_segments-prints seen (d ∷ ds) = elim (Bool-cases (has_text (destination_key d) seen)) [
  | inl e ↦ rw e (new_segments-prints seen ds)
  | inr e ↦ rw (e, new_segments-prints (destination_key d ∷ seen) ds) refl
]

is_pair-print : (d : NotifyDestination) → IsPlain d → is_pair (cut_arrow (print d)) ≡ true
unfolding is_pair
is_pair-print d h =
    rw
      (
        cut_arrow-append d.type d.destination (cut_arrow-word d.type h.word),
        trim_text-same d.type (IsTrimmed-word d.type h.word),
        trim_text-same d.destination h.trimmed,
        empty_eq d.type h.typed,
        empty_eq d.destination h.full,
      )
      refl

normalize_segments-prints :
    (seen : List String) (ds : List NotifyDestination)
    → All IsWritable ds
    → normalize_segments seen (prints ds) ≡ some (prints (without_repeats seen ds))
unfolding normalize_segments without_repeats
normalize_segments-prints seen [] h = refl
normalize_segments-prints seen (d ∷ ds) (h, hs) =
    let same = trim_text-same (print d) (print-IsTrimmed d h.plain) in
    let full = empty_eq (print d) (print_full d h.plain) in
    elim (Bool-cases (has_text (destination_key d) seen)) [
      | inl e ↦ rw (same, full, is_pair-print d h.plain, e) (normalize_segments-prints seen ds hs)
      | inr e ↦
          rw
            (
              same,
              full,
              is_pair-print d h.plain,
              e,
              normalize_segments-prints (destination_key d ∷ seen) ds hs,
            )
            refl
    ]

print_all-trim_right :
    (d : NotifyDestination) (ds : List NotifyDestination)
    → All IsWritable (d ∷ ds)
    → (trim_right (print_all (d ∷ ds)) ≡ print_all (d ∷ ds))
      × (is_empty_text (print_all (d ∷ ds)) ≡ false)
unfolding join_with
print_all-trim_right d [] (h, hs) = ((print-IsTrimmed d h.plain).right, print_full d h.plain)
print_all-trim_right d (e ∷ ds) (h, hs) =
    let rest = print_all (e ∷ ds) in
    let (same, full) = print_all-trim_right e ds hs in
    let full' = append_full "," rest full in
    (
      trim_right-append (print d) (String.◌++◌ "," rest) (trim_right-append "," rest same full)
          full',
      append_full (print d) (String.◌++◌ "," rest) full',
    )

print_all-starts_blank :
    (d : NotifyDestination) (ds : List NotifyDestination)
    → IsPlain d
    → starts_blank (print_all (d ∷ ds)) ≡ false
unfolding join_with
print_all-starts_blank d [] h = (print-IsTrimmed d h).left
print_all-starts_blank d (e ∷ ds) h = rw append_assoc (starts_blank-word d.type _ h.word h.typed)

print_all-IsTrimmed :
    (d : NotifyDestination) (ds : List NotifyDestination)
    → All IsWritable (d ∷ ds)
    → IsTrimmed (print_all (d ∷ ds))
print_all-IsTrimmed d ds (h, hs) = record {
  left = print_all-starts_blank d ds h.plain;
  right = (print_all-trim_right d ds (h, hs)).0;
}

split_commas-print_all :
    (d : NotifyDestination) (ds : List NotifyDestination)
    → All IsWritable (d ∷ ds)
    → split_commas (print_all (d ∷ ds)) ≡ prints (d ∷ ds)
split_commas-print_all d ds (h, hs) =
    rw
      (split_parts-join_with is_comma "," (print d) (prints ds) refl (print-HasNo d h)
        (prints-HasNo ds hs))
      refl

pub custom_segments-print_all :
    (ds : List NotifyDestination)
    → All IsWritable ds
    → custom_segments (some (print_all ds)) ≡ prints ds
unfolding join_with
custom_segments-print_all [] h = refl
custom_segments-print_all (d ∷ ds) h =
    rw (empty_eq (print_all (d ∷ ds)) (print_all-trim_right d ds h).1)
      (split_commas-print_all d ds h)

normalize_nothing : normalize_custom_notify (print_all []) ≡ some ""
unfolding normalize_custom_notify trim_left trim_right join_with
normalize_nothing = refl

-- A string of writable destinations is normalized to those without repeats.
pub normalize-print_all :
    (ds : List NotifyDestination)
    → All IsWritable ds
    → normalize_custom_notify (print_all ds) ≡ some (print_all (without_repeats [] ds))
unfolding normalize_custom_notify
normalize-print_all [] h = normalize_nothing ∙ (unfold without_repeats in unfold join_with in refl)
normalize-print_all (d ∷ ds) h =
    let t = print_all (d ∷ ds) in
    rw (trim_text-same t (print_all-IsTrimmed d ds h), empty_eq t (print_all-trim_right d ds h).1)
      (ap (λ parts. joined (normalize_segments [] parts)) (split_commas-print_all d ds h)
        ∙ ap joined (normalize_segments-prints [] (d ∷ ds) h))
