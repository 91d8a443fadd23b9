-- ===== src/Notify/Parsing.antt =====
-- What parseNotifyString reads of a notify string that was put together from destinations.
use gofaxserver.Prelude.{
  ℕ, String, ◌≡◌, refl, ap, ◌∙◌, inl, inr, Bool, true, false, ◌&&◌, List, [], ◌∷◌, ◌++◌, arith,
  nat_eq, ◌==◌, Eq_nat, Eq_text, Bool-cases, All,
}
use gofaxserver.Notify.Words.{
  IsTrimmed-word, starts_segment-word, cut_arrow-word, has_no-word, starts_blank-word, all_of,
}
use gofaxserver.Prelude.Text.{has_prefix}
use Prim.Native.Char.{code}
use Prim.Native.String
use text.Mathlib.TextLemmas.{nil-append, cons-append, append_assoc}
use gofaxserver.Prelude.Cuts.{
  trim_left, empty_eq, cut_arrow-append, trim_text-same, append_full, trim_right-append, trim_right,
  has_no, is_empty_text, join_with, IsTrimmed,
}
use gofaxserver.Notify.{
  is_comma, add_parts, Parsed, parse_notify_string, parse_segments, add_segment, is_blank, is_word,
  destination_key, first_segment, starts_segment, starts_with, drop_class, NotifyDestination,
}

-- A comma and what is behind it.
abbrev comma_then : String → String
comma_then t = String.◌∷◌ "," t

drop_class-comma :
    (class : ℕ → Bool) (s t : String)
    → class b',' ≡ false
    → drop_class class (String.◌++◌ s (comma_then t))
      ≡ String.◌++◌ (drop_class class s) (comma_then t)
unfolding drop_class
drop_class-comma class String.[] t h = rw (nil-append, h) refl
drop_class-comma class (String.◌∷◌ c s) t h = elim (Bool-cases (class (code c))) [
  | inl e ↦ rw (cons-append, e) (drop_class-comma class s t h)
  | inr e ↦ rw (cons-append, e, cons-append) refl
]

starts_with-comma :
    (class : ℕ → Bool) (s t : String)
    → class b',' ≡ false
    → starts_with class (String.◌++◌ s (comma_then t)) ≡ starts_with class s
starts_with-comma class String.[] t h = rw nil-append h
starts_with-comma class (String.◌∷◌ c s) t h = rw cons-append refl

arrow-comma : (s t : String) → has_prefix (String.◌++◌ s (comma_then t)) "->" ≡ has_prefix s "->"
unfolding has_prefix
arrow-comma String.[] t = rw nil-append refl
arrow-comma (String.◌∷◌ c String.[]) t = rw (cons-append, nil-append) (ground arith)
arrow-comma (String.◌∷◌ c (String.◌∷◌ d s)) t = rw (cons-append, cons-append) (ground arith)

-- Whether a segment begins does not depend on what follows a comma.
starts_segment-comma :
    (s t : String) → starts_segment (String.◌++◌ s (comma_then t)) ≡ starts_segment s
unfolding starts_segment is_blank is_word
starts_segment-comma s t =
    let word = drop_class is_blank s in
    rw
      (
        drop_class-comma is_blank s t refl,
        starts_with-comma is_word word t refl,
        drop_class-comma is_word word t refl,
        drop_class-comma is_blank (drop_class is_word word) t refl,
        arrow-comma (drop_class is_blank (drop_class is_word word)) t,
      )
      refl

-- A segment, a comma and what begins a segment are split at the comma.
first_segment-comma :
    (s t : String)
    → starts_segment t ≡ true
    → first_segment (String.◌++◌ s (comma_then t))
      ≡ ((first_segment s).0, (first_segment s).1 ++ (first_segment t).0 ∷ (first_segment t).1)
unfolding first_segment
first_segment-comma String.[] t h = rw (nil-append, h) refl
first_segment-comma (String.◌∷◌ c s) t h =
    elim (Bool-cases (nat_eq (code c) b',' && starts_segment s)) [
      | inl e ↦ rw (cons-append, starts_segment-comma s t, e, first_segment-comma s t h) refl
      | inr e ↦ rw (cons-append, starts_segment-comma s t, e, first_segment-comma s t h) refl
    ]

-- How a destination is written.
abbrev pub print : NotifyDestination → String
print d = destination_key d

abbrev pub prints : List NotifyDestination → List String
prints [] = []
prints (d ∷ ds) = print d ∷ prints ds

abbrev pub print_all : List NotifyDestination → String
print_all ds = join_with "," (prints ds)

-- A destination that can be written: its type is a word other than the legacy one, and what it names
-- is not empty, has no space at its ends and no comma that begins a segment.
pub record IsPlain (d : NotifyDestination) : Type 0 where
  pub word : all_of is_word d.type ≡ true
  pub typed : is_empty_text d.type ≡ false
  pub current : (d.type == "email") ≡ false
  pub trimmed : IsTrimmed d.destination
  pub full : is_empty_text d.destination ≡ false
  pub single : first_segment d.destination ≡ (d.destination, [])

pub first_segment-has_no :
    (w s : String)
    → has_no is_comma w ≡ true
    → first_segment (String.◌++◌ w s) ≡ (String.◌++◌ w (first_segment s).0, (first_segment s).1)
unfolding first_segment
first_segment-has_no String.[] s h = rw (nil-append, nil-append) refl
first_segment-has_no (String.◌∷◌ c w) s h =
    let h' : has_no is_comma w ≡ true = ground (arith, h) in
    let e : nat_eq (code c) b',' ≡ false = ground (arith, h) in
    rw (cons-append, e, first_segment-has_no w s h', cons-append) refl

module _ (d : NotifyDestination) (h : IsPlain d) where
  arrow_full : is_empty_text (String.◌++◌ "->" d.destination) ≡ false
  arrow_full = rw cons-append refl

  arrow-trimmed : trim_right (String.◌++◌ "->" d.destination) ≡ String.◌++◌ "->" d.destination
  arrow-trimmed = trim_right-append "->" d.destination h.trimmed.right h.full

  pub print-IsTrimmed : IsTrimmed (print d)
  print-IsTrimmed = record {
    left = starts_blank-word d.type (String.◌++◌ "->" d.destination) h.word h.typed;
    right = trim_right-append d.type (String.◌++◌ "->" d.destination) arrow-trimmed arrow_full;
  }

  pub print_full : is_empty_text (print d) ≡ false
  print_full = append_full d.type (String.◌++◌ "->" d.destination) arrow_full

  first_segment-print : first_segment (print d) ≡ (print d, [])
  first_segment-print =
      rw
        (
          first_segment-has_no d.type (String.◌++◌ "->" d.destination) (has_no-word d.type h.word),
          first_segment-has_no "->" d.destination refl,
          h.single,
        )
        refl

  -- A destination that is written is read back.
  add_segment-print : (parsed : Parsed) → add_segment (print d) parsed ≡ (d ∷ parsed.0, parsed.1)
  unfolding add_parts
  add_segment-print parsed =
      rw
        (
          cut_arrow-append d.type d.destination (cut_arrow-word d.type h.word),
          trim_text-same d.type (IsTrimmed-word d.type h.word),
          trim_text-same d.destination h.trimmed,
          empty_eq d.type h.typed,
          empty_eq d.destination h.full,
          h.current,
        )
        refl

parse_segments-prints :
    (ds : List NotifyDestination) → All IsPlain ds → parse_segments (prints ds) ≡ (ds, [])
unfolding parse_segments
parse_segments-prints [] h = refl
parse_segments-prints (d ∷ ds) (h, hs) =
    rw
      (
        trim_text-same (print d) (print-IsTrimmed d h),
        empty_eq (print d) (print_full d h),
        parse_segments-prints ds hs,
      )
      (add_segment-print d h (ds, []))

starts_segment-print_all :
    (d : NotifyDestination) (ds : List NotifyDestination)
    → IsPlain d
    → starts_segment (print_all (d ∷ ds)) ≡ true
unfolding join_with
starts_segment-print_all d [] h = starts_segment-word d.type d.destination h.word h.typed
starts_segment-print_all d (e ∷ ds) h =
    let rest = String.◌++◌ "," (print_all (e ∷ ds)) in
    rw (append_assoc, append_assoc)
      (starts_segment-word d.type (String.◌++◌ d.destination rest) h.word h.typed)

first_segment-print_all :
    (d : NotifyDestination) (ds : List NotifyDestination)
    → All IsPlain (d ∷ ds)
    → first_segment (print_all (d ∷ ds)) ≡ (print d, prints ds)
unfolding join_with
first_segment-print_all d [] (h, hs) = first_segment-print d h
first_segment-print_all d (e ∷ ds) (h, (k, hs)) =
    let rest = print_all (e ∷ ds) in
    let comma : String.◌++◌ "," rest ≡ comma_then rest = rw (cons-append, nil-append) refl in
    ap (λ t. first_segment (String.◌++◌ (print d) t)) comma
    ∙ first_segment-comma (print d) rest (starts_segment-print_all e ds k)
    ∙ rw (first_segment-print d h, first_segment-print_all e ds (k, hs)) refl

parse_nothing : parse_notify_string "" ≡ ([], [])
unfolding parse_notify_string trim_left trim_right
parse_nothing = refl

-- Destinations that are written with their types, arrows and commas between them are read back, all
-- of them and in order, and nothing is skipped: if each type is a word other than "email", and each
-- value is not empty, has no space at its ends and no comma in it that begins a segment.
pub parse-print_all :
    (ds : List NotifyDestination) → All IsPlain ds → parse_notify_string (print_all ds) ≡ (ds, [])
unfolding parse_notify_string join_with
parse-print_all [] h = parse_nothing
parse-print_all (d ∷ ds) h = rw (first_segment-print_all d ds h) (parse_segments-prints (d ∷ ds) h)
