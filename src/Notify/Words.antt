-- ===== src/Notify/Words.antt =====
-- Words, as the type of a destination is: what trimming, cutting and splitting make of a text that
-- begins with one.
use gofaxserver.Prelude.{ℕ, String, ◌≡◌, refl, Bool, true, false, ◌&&◌, none, arith, nat_eq}
use gofaxserver.Prelude.Text.{is_space}
use Prim.Native.Char.{code}
use Prim.Native.String
use text.Mathlib.TextLemmas.{nil-append, cons-append}
use gofaxserver.Prelude.Cuts.{starts_blank, trim_right, cut_arrow, has_no, is_empty_text, IsTrimmed}
use gofaxserver.Notify.{is_comma, is_blank, is_word, starts_segment, starts_with, drop_class}

-- Every character is of the class.
abbrev pub all_of : (ℕ → Bool) → String → Bool
all_of class String.[] = true
all_of class (String.◌∷◌ c s) = class (code c) && all_of class s

-- A word has no comma, no arrow and no space.
pub has_no-word : (w : String) → all_of is_word w ≡ true → has_no is_comma w ≡ true
unfolding is_word
has_no-word String.[] h = refl
has_no-word (String.◌∷◌ c w) h = ground (arith, has_no-word w, h)

pub cut_arrow-word : (w : String) → all_of is_word w ≡ true → cut_arrow w ≡ none
unfolding cut_arrow is_word
cut_arrow-word String.[] h = refl
cut_arrow-word (String.◌∷◌ c String.[]) h = refl
cut_arrow-word (String.◌∷◌ c (String.◌∷◌ d w)) h =
    let h' : all_of is_word (String.◌∷◌ d w) ≡ true = ground (arith, h) in
    let e : nat_eq (code c) b'-' ≡ false = ground (arith, h) in
    rw (e, cut_arrow-word (String.◌∷◌ d w) h') refl

pub is_space-word : (c : ℕ) → is_word c ≡ true → is_space c ≡ false
unfolding is_word is_space
is_space-word c h = ground (arith, h)

pub is_blank-word : (c : ℕ) → is_word c ≡ true → is_blank c ≡ false
unfolding is_word is_blank
is_blank-word c h = ground (arith, h)

pub trim_right-word : (w : String) → all_of is_word w ≡ true → trim_right w ≡ w
unfolding trim_right
trim_right-word String.[] h = refl
trim_right-word (String.◌∷◌ c w) h =
    let h' : all_of is_word w ≡ true = ground (arith, h) in
    let e : is_space (code c) ≡ false = is_space-word (code c) (ground (arith, h)) in
    rw (e, trim_right-word w h') (ground arith)

pub starts_blank-word :
    (w s : String)
    → all_of is_word w ≡ true
    → is_empty_text w ≡ false
    → starts_blank (String.◌++◌ w s) ≡ false
starts_blank-word String.[] s h full = cc
starts_blank-word (String.◌∷◌ c w) s h full =
    rw cons-append (is_space-word (code c) (ground (arith, h)))

pub drop_class-word :
    (w s : String)
    → all_of is_word w ≡ true
    → starts_with is_word s ≡ false
    → drop_class is_word (String.◌++◌ w s) ≡ s
unfolding drop_class
drop_class-word String.[] String.[] h end = refl
drop_class-word String.[] (String.◌∷◌ c s) h end = rw (nil-append, end) refl
drop_class-word (String.◌∷◌ c w) s h end =
    let h' : all_of is_word w ≡ true = ground (arith, h) in
    let e : is_word (code c) ≡ true = ground (arith, h) in
    rw (cons-append, e) (drop_class-word w s h' end)

-- A word and an arrow begin a segment.
pub starts_segment-word :
    (w s : String)
    → all_of is_word w ≡ true
    → is_empty_text w ≡ false
    → starts_segment (String.◌++◌ w (String.◌++◌ "->" s)) ≡ true
unfolding starts_segment
starts_segment-word String.[] s h full = cc
starts_segment-word (String.◌∷◌ c w) s h full =
    let word : is_word (code c) ≡ true = ground (arith, h) in
    let arrow : String = String.◌∷◌ "-" (String.◌∷◌ ">" s) in
    let spelled : String.◌++◌ "->" s ≡ arrow = rw (cons-append, cons-append, nil-append) refl in
    let front : drop_class is_blank (String.◌∷◌ c (String.◌++◌ w arrow))
        ≡ String.◌∷◌ c (String.◌++◌ w arrow) =
      rw (drop_class, is_blank-word (code c) word) refl in
    let back : drop_class is_word (String.◌∷◌ c (String.◌++◌ w arrow)) ≡ arrow =
      rw cons-append at (drop_class-word (String.◌∷◌ c w) arrow h refl) in
    rw (spelled, cons-append, front, back, word) refl

pub IsTrimmed-word : (w : String) → all_of is_word w ≡ true → IsTrimmed w
IsTrimmed-word String.[] h = record { left = refl; right = trim_right-word "" refl }
IsTrimmed-word (String.◌∷◌ c w) h = record {
  left = is_space-word (code c) (ground (arith, h));
  right = trim_right-word (String.◌∷◌ c w) h;
}
