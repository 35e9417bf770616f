-- ===== src/Prelude/Texts.antt =====
-- `<` on strings and the order that it gives, substrings, and the length in bytes and lines.
use Prim.Native.Nat.{ℕ, ◌+◌, Ordering}
use Prim.Native.Char.{code}
use Prim.Native.String.compare
use Prim.Native.String.{String, compare as compare_texts}
use mathlib.Core.Path.{◌≡◌, refl}
use mathlib.Core.Bool.{Bool, true, false, ◌&&◌, ◌||◌}
use mathlib.Core.List.{List, [], ◌∷◌}
use native.Mathlib.Omega.{arith}
use reef.Prelude.Tests.{ltb, ◌==◌, if◌then◌else◌}

abbrev is_lt : Ordering → Bool
is_lt Ordering.lt = true
is_lt _ = false

unfoldable pub str_lt : String → String → Bool
str_lt s t = is_lt (compare_texts s t)

-- Not below is a transitive relation: the order of texts is total.
pub str_lt_neg_trans :
    (s t u : String) → str_lt t s ≡ false → str_lt u t ≡ false → str_lt u s ≡ false
unfolding str_lt
str_lt_neg_trans s String.[] String.[] h k = h
str_lt_neg_trans String.[] String.[] (String.◌∷◌ e u) h k = k
str_lt_neg_trans (String.◌∷◌ c s) String.[] (String.◌∷◌ e u) h k =
    absurd (ground (arith, compare.nil-cons c s))
str_lt_neg_trans String.[] (String.◌∷◌ d t) String.[] h k = refl
str_lt_neg_trans String.[] (String.◌∷◌ d t) (String.◌∷◌ e u) h k =
    ground (arith, compare.cons-nil e u)
str_lt_neg_trans (String.◌∷◌ c s) (String.◌∷◌ d t) String.[] h k =
    absurd (ground (arith, compare.nil-cons d t))
str_lt_neg_trans (String.◌∷◌ c s) (String.◌∷◌ d t) (String.◌∷◌ e u) h k = ground (
  arith,
  compare.cons-cons d c t s,
  compare.cons-cons e d u t,
  compare.cons-cons e c u s,
  str_lt_neg_trans s t u,
)

-- At most one of two texts is below the other.
pub str_lt_asym : (s t : String) → str_lt s t ≡ true → str_lt t s ≡ false
unfolding str_lt
str_lt_asym String.[] String.[] h = refl
str_lt_asym String.[] (String.◌∷◌ d t) h = ground (arith, compare.cons-nil d t)
str_lt_asym (String.◌∷◌ c s) String.[] h = absurd (ground (arith, compare.cons-nil c s))
str_lt_asym (String.◌∷◌ c s) (String.◌∷◌ d t) h =
    ground (arith, compare.cons-cons c d s t, compare.cons-cons d c t s, str_lt_asym s t)

-- The code points of a text.
abbrev pub codes : String → List ℕ
codes String.[] = []
codes (String.◌∷◌ c s) = code c ∷ codes s

unfoldable pub starts_with : List ℕ → List ℕ → Bool
starts_with text [] = true
starts_with [] (p ∷ part) = false
starts_with (c ∷ text) (p ∷ part) = c == p && starts_with text part

unfoldable pub has_codes : List ℕ → List ℕ → Bool
unfolding starts_with
has_codes [] part = starts_with [] part
has_codes (c ∷ text) part = starts_with (c ∷ text) part || has_codes text part

-- `strings.Contains`
unfoldable pub contains : String → String → Bool
unfolding has_codes
contains text part = has_codes (codes text) (codes part)

-- The bytes of a code point in UTF-8, and of a text: `len`.
unfoldable pub width : ℕ → ℕ
width c = if ltb c 0x80 then 1 else if ltb c 0x800 then 2 else if ltb c 0x10000 then 3 else 4

unfoldable pub bytes_of : List ℕ → ℕ
unfolding width
bytes_of [] = 0
bytes_of (c ∷ cs) = width c + bytes_of cs

unfoldable pub byte_len : String → ℕ
unfolding bytes_of
byte_len s = bytes_of (codes s)

-- `strings.Count(s, "\n") + 1`
unfoldable pub lines_of : List ℕ → ℕ
lines_of [] = 1
lines_of (c ∷ cs) = (if c == 10 then 1 else 0) + lines_of cs

unfoldable pub line_count : String → ℕ
unfolding lines_of
line_count s = lines_of (codes s)
