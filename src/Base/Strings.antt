-- ===== src/Base/Strings.antt =====
-- Go strings as lists of code points. `len` counts the bytes of their UTF-8 form.
use Prim.Native.Nat.{ℕ, ◌+◌}
use Prim.Native.Char.{code}
use Prim.Native.String.{String}
use mathlib.Core.Path.{◌≡◌}
use mathlib.Core.Logic.{◌↔◌}
use mathlib.Core.Bool.{Bool, true, false, ◌&&◌, ◌||◌}
use mathlib.Core.List.{List, [], ◌∷◌, ◌++◌, reverse}
use native.Mathlib.Omega.{arith}
use quire_server.Base.Tests.{ltb, leb, nat_beq, if◌then◌else◌, Eq, ◌==◌, nat_eq}
use quire_server.Base.Lists.{length, all}

abbrev pub Text : Type 0
Text = List ℕ

abbrev pub codes : String → Text
codes String.[] = []
codes (String.◌∷◌ c s) = code c ∷ codes s

unfoldable pub text_beq : Text → Text → Bool
text_beq [] [] = true
text_beq [] (d ∷ t) = false
text_beq (c ∷ s) [] = false
text_beq (c ∷ s) (d ∷ t) = nat_beq c d && text_beq s t

pub text_beq_iff : (s t : Text) → (text_beq s t ≡ true) ↔ (s ≡ t)
unfolding text_beq
text_beq_iff [] [] = ground arith
text_beq_iff [] (d ∷ t) = ground arith
text_beq_iff (c ∷ s) [] = ground arith
text_beq_iff (c ∷ s) (d ∷ t) = ground (arith, text_beq_iff s t)

instance abbrev pub text_eq : Eq Text
text_eq = record { same = text_beq; same_iff = text_beq_iff }

-- The bytes of a code point in UTF-8.
abbrev pub width : ℕ → ℕ
width c = if ltb c 0x80 then 1 else if ltb c 0x800 then 2 else if ltb c 0x10000 then 3 else 4

-- len(s)
unfoldable pub len : Text → ℕ
len [] = 0
len (c ∷ s) = width c + len s

abbrev pub in_range : ℕ → ℕ → ℕ → Bool
in_range lo hi c = leb lo c && leb c hi

-- unicode.IsControl: the category Cc
unfoldable pub is_control : ℕ → Bool
is_control c = ltb c 0x20 || in_range 0x7f 0x9f c

-- unicode.IsSpace
unfoldable pub is_space : ℕ → Bool
is_space c =
    in_range 9 13 c
    || c == 0x20
    || c == 0x85
    || c == 0xa0
    || c == 0x1680
    || in_range 0x2000 0x200a c
    || c == 0x2028
    || c == 0x2029
    || c == 0x202f
    || c == 0x205f
    || c == 0x3000

unfoldable pub trim_left : Text → Text
unfolding is_space
trim_left [] = []
trim_left (c ∷ s) = if is_space c then trim_left s else c ∷ s

-- strings.TrimSpace
unfoldable pub trim_space : Text → Text
unfolding trim_left
trim_space s = reverse (trim_left (reverse (trim_left s)))

-- strings.HasPrefix
unfoldable pub has_prefix : Text → Text → Bool
has_prefix s [] = true
has_prefix [] (d ∷ p) = false
has_prefix (c ∷ s) (d ∷ p) = nat_beq c d && has_prefix s p

-- strings.TrimPrefix
unfoldable pub trim_prefix : Text → Text → Text
trim_prefix s [] = s
trim_prefix [] (d ∷ p) = []
trim_prefix (c ∷ s) (d ∷ p) = trim_prefix s p

split_from : ℕ → Text → Text → List Text
split_from sep cur [] = cur ∷ []
split_from sep cur (c ∷ s) =
    let cut = cur ∷ split_from sep [] s in
    let longer = split_from sep (cur ++ c ∷ []) s in if c == sep then cut else longer

-- strings.Split at a separator of one code point
unfoldable pub split : Text → ℕ → List Text
unfolding split_from
split s sep = split_from sep [] s

abbrev pub is_lower : ℕ → Bool
is_lower = in_range b'a' b'z'

abbrev pub is_upper : ℕ → Bool
is_upper = in_range b'A' b'Z'

abbrev pub is_digit : ℕ → Bool
is_digit = in_range b'0' b'9'

-- [a-f0-9]
abbrev pub is_hex : ℕ → Bool
is_hex c = in_range b'a' b'f' c || is_digit c

-- ^[a-f0-9]{n}$
unfoldable pub hex_pattern : ℕ → Text → Bool
hex_pattern n s = length s == n && all is_hex s

-- s <= t, by code points, which is also the order of the UTF-8 bytes
abbrev pub text_leb : Text → Text → Bool
text_leb [] t = true
text_leb (c ∷ s) [] = false
text_leb (c ∷ s) (d ∷ t) = if c == d then text_leb s t else ltb c d

abbrev pub place_text : Text → List Text → List Text
place_text s [] = s ∷ []
place_text s (t ∷ ts) = if text_leb s t then s ∷ t ∷ ts else t ∷ place_text s ts

-- sort.Strings
abbrev pub sort_texts : List Text → List Text
sort_texts [] = []
sort_texts (s ∷ ts) = place_text s (sort_texts ts)
