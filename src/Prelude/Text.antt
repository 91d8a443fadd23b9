-- ===== src/Prelude/Text.antt =====
-- What the program uses of Go's package `strings`. Case folding is that of the letters a to z,
-- which suffices where the program compares with ASCII words that hold no k and no s.
use Prim.Native.Char.{code}
use Prim.Native.Nat.{ℕ, ◌-◌}
use Prim.Native.String
use Prim.Native.String.{String}
use mathlib.Core.Bool.{Bool, true, false, ◌&&◌, ◌||◌}
use mathlib.Core.List.{List, [], ◌∷◌, reverse}
use mathlib.Core.Option.{Option, none, some}
use mathlib.Core.Path.{◌≡◌, refl}
use text.Mathlib.Text.{find?}
use gofaxserver.Prelude.Tests.{leb, nat_eq, if◌then◌else◌}
use gofaxserver.Prelude.Lists.{is_some}

-- strings.Split(s, ":")[0], and the first result of strings.Cut(s, ":")
unfoldable pub before_colon : String → String
before_colon String.[] = ""
before_colon (String.◌∷◌ c s) = if nat_eq (code c) b':' then "" else String.◌∷◌ c (before_colon s)

-- s[strings.Index(s, ":")+1:], or nothing where Index is -1
unfoldable pub after_colon : String → Option String
after_colon String.[] = none
after_colon (String.◌∷◌ c s) =
    let rest = after_colon s in if nat_eq (code c) b':' then some s else rest

abbrev is_empty_text : String → Bool
is_empty_text String.[] = true
is_empty_text (String.◌∷◌ c s) = false

-- strings.Contains(s, t)
abbrev pub contains_text : String → String → Bool
contains_text s t = is_some (find? s t)

-- strings.Join(names, ",")
unfoldable pub join_comma : List String → String
join_comma [] = ""
join_comma (s ∷ []) = s
join_comma (s ∷ r ∷ rest) = String.◌++◌ s (String.◌++◌ "," (join_comma (r ∷ rest)))

-- The code points of a text.
abbrev pub codes : String → List ℕ
codes String.[] = []
codes (String.◌∷◌ c s) = code c ∷ codes s

unfoldable pub to_upper : ℕ → ℕ
to_upper c = if leb b'a' c && leb c b'z' then c - 32 else c

unfoldable pub equal_codes : List ℕ → List ℕ → Bool
unfolding to_upper
equal_codes [] [] = true
equal_codes (a ∷ as') (b ∷ bs) = nat_eq (to_upper a) (to_upper b) && equal_codes as' bs
equal_codes _ _ = false

-- strings.EqualFold(s, t)
unfoldable pub equal_fold : String → String → Bool
unfolding equal_codes
equal_fold s t = equal_codes (codes s) (codes t)

-- unicode.IsSpace
unfoldable pub is_space : ℕ → Bool
is_space c =
    leb 9 c && leb c 13
    || nat_eq c 0x20
    || nat_eq c 0x85
    || nat_eq c 0xa0
    || nat_eq c 0x1680
    || leb 0x2000 c && leb c 0x200a
    || nat_eq c 0x2028
    || nat_eq c 0x2029
    || nat_eq c 0x202f
    || nat_eq c 0x205f
    || nat_eq c 0x3000

unfoldable pub skip_space : List ℕ → List ℕ
unfolding is_space
skip_space [] = []
skip_space (c ∷ s) = let rest = skip_space s in if is_space c then rest else c ∷ s

-- The code points of strings.TrimSpace(s)
unfoldable pub trim_space : String → List ℕ
unfolding skip_space
trim_space s = reverse (skip_space (reverse (skip_space (codes s))))

gateway_name : before_colon "pbx:10.0.0.1" ≡ "pbx"
unfolding before_colon
gateway_name = refl

folded : equal_fold "Gateway" "gateWAY" ≡ true
unfolding equal_fold
folded = refl

trimmed : trim_space " a b " ≡ codes "a b"
unfolding trim_space
trimmed = refl

-- strings.TrimRight(s, "/")
unfoldable pub trim_right_slash : String → String
trim_right_slash String.[] = ""
trim_right_slash (String.◌∷◌ c s) =
    let rest = trim_right_slash s in
    if is_empty_text rest && nat_eq (code c) b'/' then "" else String.◌∷◌ c rest

-- strings.HasPrefix(s, p)
unfoldable pub has_prefix : String → String → Bool
has_prefix s String.[] = true
has_prefix String.[] (String.◌∷◌ d p) = false
has_prefix (String.◌∷◌ c s) (String.◌∷◌ d p) =
    let rest = has_prefix s p in if nat_eq (code c) (code d) then rest else false
