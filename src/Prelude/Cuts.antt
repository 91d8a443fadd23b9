-- ===== src/Prelude/Cuts.antt =====
-- Texts that are trimmed, cut at "->" and split at separators, as Go's package `strings` does it, and
-- what these keep of a text that was put together from its parts.
use Prim.Native.Char.{Char, code}
use Prim.Native.Nat.{ℕ}
use Prim.Native.String
use Prim.Native.String.{String}
use mathlib.Core.Bool.{Bool, true, false, ◌&&◌, not}
use mathlib.Core.List.{List, [], ◌∷◌}
use mathlib.Core.Logic.{inl, inr}
use mathlib.Core.Option.{Option, none, some}
use mathlib.Core.Path.{◌≡◌, refl, ap, ◌∙◌, subst}
use native.Mathlib.Omega.{arith}
use text.Mathlib.TextEquality.{eq_iff}
use text.Mathlib.TextLemmas.{nil-append, cons-append}
use gofaxserver.Prelude.Tests.{nat_eq, if◌then◌else◌, Bool-cases, Option-cases, ◌==◌, Eq_text}
use gofaxserver.Prelude.Lists.{All}
use gofaxserver.Prelude.Text.{is_space}

abbrev pub is_empty_text : String → Bool
is_empty_text String.[] = true
is_empty_text (String.◌∷◌ c s) = false

-- strings.TrimLeftFunc(s, unicode.IsSpace) and strings.TrimRightFunc(s, unicode.IsSpace)
unfoldable pub trim_left : String → String
unfolding is_space
trim_left String.[] = ""
trim_left (String.◌∷◌ c s) =
    let rest = trim_left s in if is_space (code c) then rest else String.◌∷◌ c s

unfoldable pub trim_right : String → String
unfolding is_space
trim_right String.[] = ""
trim_right (String.◌∷◌ c s) =
    let rest = trim_right s in
    if is_empty_text rest && is_space (code c) then "" else String.◌∷◌ c rest

-- strings.TrimSpace
abbrev pub trim_text : String → String
trim_text s = trim_right (trim_left s)

-- Whether the first character is a space.
abbrev pub starts_blank : String → Bool
starts_blank String.[] = false
starts_blank (String.◌∷◌ c s) = is_space (code c)

-- strings.Cut(s, "->"), nothing where "->" is missing
unfoldable pub cut_arrow : String → Option (String × String)
cut_arrow String.[] = none
cut_arrow (String.◌∷◌ c String.[]) = none
cut_arrow (String.◌∷◌ c (String.◌∷◌ d s)) =
    let rest = cut_arrow (String.◌∷◌ d s) in
    if nat_eq (code c) b'-' && nat_eq (code d) b'>'
    then some ("", s)
    else (elim rest [ none ↦ none | some cut ↦ some (String.◌∷◌ c cut.0, cut.1) ])

module _ (is_separator : ℕ → Bool) where
  -- The part in front of the first separator, and the parts behind it.
  unfoldable pub split_parts : String → String × List String
  split_parts String.[] = ("", [])
  split_parts (String.◌∷◌ c s) =
      let rest = split_parts s in
      if is_separator (code c) then ("", rest.0 ∷ rest.1) else (String.◌∷◌ c rest.0, rest.1)

  abbrev pub has_no : String → Bool
  has_no String.[] = true
  has_no (String.◌∷◌ c s) = not (is_separator (code c)) && has_no s

-- strings.Join
unfoldable pub join_with : String → List String → String
join_with sep [] = ""
join_with sep (s ∷ []) = s
join_with sep (s ∷ r ∷ rest) = String.◌++◌ s (String.◌++◌ sep (join_with sep (r ∷ rest)))

starts_blank-trim_left : (s : String) → starts_blank (trim_left s) ≡ false
unfolding trim_left
starts_blank-trim_left String.[] = refl
starts_blank-trim_left (String.◌∷◌ c s) = elim (Bool-cases (is_space (code c))) [
  | inl e ↦ rw e (starts_blank-trim_left s)
  | inr e ↦ rw e e
]

pub trim_left-same : (s : String) → starts_blank s ≡ false → trim_left s ≡ s
unfolding trim_left
trim_left-same String.[] h = refl
trim_left-same (String.◌∷◌ c s) h = rw h refl

starts_blank-trim_right :
    (s : String) → starts_blank s ≡ false → starts_blank (trim_right s) ≡ false
unfolding trim_right
starts_blank-trim_right String.[] h = refl
starts_blank-trim_right (String.◌∷◌ c s) h = elim (Bool-cases (is_empty_text (trim_right s))) [
  | inl e ↦ rw (e, h) h
  | inr e ↦ rw e h
]

trim_right_twice : (s : String) → trim_right (trim_right s) ≡ trim_right s
unfolding trim_right
trim_right_twice String.[] = refl
trim_right_twice (String.◌∷◌ c s) =
    elim (Bool-cases (is_empty_text (trim_right s) && is_space (code c))) [
      | inl e ↦ rw e refl
      | inr e ↦ rw (e, trim_right_twice s, e) refl
    ]

-- A text without space at its ends.
pub record IsTrimmed (s : String) : Type 0 where
  pub left : starts_blank s ≡ false
  pub right : trim_right s ≡ s

pub trim_text-IsTrimmed : (s : String) → IsTrimmed (trim_text s)
trim_text-IsTrimmed s = record {
  left = starts_blank-trim_right (trim_left s) (starts_blank-trim_left s);
  right = trim_right_twice (trim_left s);
}

pub trim_text-same : (s : String) → IsTrimmed s → trim_text s ≡ s
trim_text-same s h = ap trim_right (trim_left-same s h.left) ∙ h.right

pub empty_eq : (s : String) → is_empty_text s ≡ false → (s == "") ≡ false
empty_eq s h = elim (Bool-cases (s == "")) [
  | inl e ↦ absurd (
      let no : is_empty_text "" ≡ false =
        subst (λ t. is_empty_text t ≡ false) ((eq_iff s "").0 e) h in
      cc)
  | inr e ↦ e
]

pub append_full : (w s : String) → is_empty_text s ≡ false → is_empty_text (String.◌++◌ w s) ≡ false
append_full String.[] s h = rw nil-append h
append_full (String.◌∷◌ c w) s h = rw cons-append refl

pub starts_blank-append :
    (w s : String)
    → is_empty_text w ≡ false
    → starts_blank w ≡ false
    → starts_blank (String.◌++◌ w s) ≡ false
starts_blank-append String.[] s full h = cc
starts_blank-append (String.◌∷◌ c w) s full h = rw cons-append h

-- What ends in a text without space at its end has no space at its end.
pub trim_right-append :
    (w s : String)
    → trim_right s ≡ s
    → is_empty_text s ≡ false
    → trim_right (String.◌++◌ w s) ≡ String.◌++◌ w s
unfolding trim_right
trim_right-append String.[] s h full = rw nil-append h
trim_right-append (String.◌∷◌ c w) s h full =
    let full' : is_empty_text (String.◌++◌ w s) ≡ false = append_full w s full in
    rw (cons-append, trim_right-append w s h full, full') refl

-- A text without "->" is what the cut finds in front of an arrow that follows it.
pub cut_arrow-append :
    (w s : String)
    → cut_arrow w ≡ none
    → cut_arrow (String.◌++◌ w (String.◌++◌ "->" s)) ≡ some (w, s)
unfolding cut_arrow
cut_arrow-append String.[] s h = rw (nil-append, cons-append, cons-append, nil-append) refl
cut_arrow-append (String.◌∷◌ c String.[]) s h =
    rw (cons-append, nil-append, cons-append, cons-append, nil-append) (ground arith)
cut_arrow-append (String.◌∷◌ c (String.◌∷◌ d w)) s h =
    elim (Bool-cases (nat_eq (code c) b'-' && nat_eq (code d) b'>')) [
      | inl e ↦ absurd (let no : some ("", w) ≡ none = rw (e) at h in cc)
      | inr e ↦
          let rest : cut_arrow (String.◌∷◌ d w) ≡ none =
            elim (Option-cases (cut_arrow (String.◌∷◌ d w))) [
              | inl gone ↦ gone
              | inr (cut, found) ↦
                  absurd
                    (let no : some (String.◌∷◌ c cut.0, cut.1) ≡ none = rw (e, found) at h in cc)
            ] in
          let ih : cut_arrow (String.◌∷◌ d (String.◌++◌ w (String.◌++◌ "->" s)))
              ≡ some (String.◌∷◌ d w, s) =
            rw cons-append at (cut_arrow-append (String.◌∷◌ d w) s rest) in
          rw (cons-append, cons-append, e, ih) refl
    ]

module _ (is_separator : ℕ → Bool) where
  pub split_parts-has_no :
      (w : String) → has_no is_separator w ≡ true → split_parts is_separator w ≡ (w, [])
  unfolding split_parts
  split_parts-has_no String.[] h = refl
  split_parts-has_no (String.◌∷◌ c w) h =
      let e : is_separator (code c) ≡ false = ground (arith, h) in
      let h' : has_no is_separator w ≡ true = ground (arith, h) in
      rw (e, split_parts-has_no w h') refl

  pub split_parts-append :
      (w s : String) (c : Char)
      → has_no is_separator w ≡ true
      → is_separator (code c) ≡ true
      → split_parts is_separator (String.◌++◌ w (String.◌∷◌ c s))
        ≡ (w, (split_parts is_separator s).0 ∷ (split_parts is_separator s).1)
  unfolding split_parts
  split_parts-append String.[] s c h sep = rw (nil-append, sep) refl
  split_parts-append (String.◌∷◌ d w) s c h sep =
      let e : is_separator (code d) ≡ false = ground (arith, h) in
      let h' : has_no is_separator w ≡ true = ground (arith, h) in
      rw (cons-append, e, split_parts-append w s c h' sep) refl

  abbrev pub HasNo : String → Type 0
  HasNo s = has_no is_separator s ≡ true

  pub HasNo-append : (w s : String) → HasNo w → HasNo s → HasNo (String.◌++◌ w s)
  HasNo-append String.[] s h k = rw nil-append k
  HasNo-append (String.◌∷◌ c w) s h k =
      let h' : HasNo w = ground (arith, h) in
      let e : is_separator (code c) ≡ false = ground (arith, h) in
      rw (cons-append, e) (HasNo-append w s h' k)

  -- The parts hold no separator.
  pub split_parts-HasNo :
      (s : String) → HasNo (split_parts is_separator s).0 × All HasNo (split_parts is_separator s).1
  unfolding split_parts
  split_parts-HasNo String.[] = (refl, tt)
  split_parts-HasNo (String.◌∷◌ c s) = elim (Bool-cases (is_separator (code c))) [
    | inl e ↦ rw e (refl, split_parts-HasNo s)
    | inr e ↦ let (h, hs) = split_parts-HasNo s in rw e (rw e h, hs)
  ]

  -- Splitting what was joined by a separator gives the parts back.
  pub split_parts-join_with :
      (c : Char) (p : String) (ps : List String)
      → is_separator (code c) ≡ true
      → HasNo p
      → All HasNo ps
      → split_parts is_separator (join_with (String.◌∷◌ c "") (p ∷ ps)) ≡ (p, ps)
  unfolding join_with
  split_parts-join_with c p [] sep h hs = split_parts-has_no p h
  split_parts-join_with c p (q ∷ ps) sep h (k, hs) =
      rw
        (
          cons-append,
          nil-append,
          split_parts-append p _ c h sep,
          split_parts-join_with c q ps sep k hs,
        )
        refl

  trim_left-HasNo : (s : String) → HasNo s → HasNo (trim_left s)
  unfolding trim_left
  trim_left-HasNo String.[] h = refl
  trim_left-HasNo (String.◌∷◌ c s) h = ground (arith, trim_left-HasNo s, h)

  trim_right-HasNo : (s : String) → HasNo s → HasNo (trim_right s)
  unfolding trim_right
  trim_right-HasNo String.[] h = refl
  trim_right-HasNo (String.◌∷◌ c s) h = ground (arith, trim_right-HasNo s, h)

  pub trim_text-HasNo : (s : String) → HasNo s → HasNo (trim_text s)
  trim_text-HasNo s h = trim_right-HasNo (trim_left s) (trim_left-HasNo s h)
