-- ===== src/Common/Texts.antt =====
-- The order of Go's `<` on texts is total and transitive.
use Prim.Native.String.{String, then, compare as compare_str}
use Prim.Native.String.compare
use Prim.Native.Char.{Char, code}
use Prim.Native.Nat.{compare as compare_ℕ, Ordering}
use mathlib.Core.Path.{◌≡◌, refl, ap}
use mathlib.Core.Bool.{Bool, true, false}
use native.Mathlib.Omega.{arith}
use text.Mathlib.Text.{◌==◌ as str_eq}
use text.Mathlib.TextEquality.{path_by_compare, eq_iff}
use sendplane.Common.Tests.{str_lt}

abbrev is_lt : Ordering → Bool
is_lt Ordering.lt = true
is_lt Ordering.eq = false
is_lt Ordering.gt = false

str_lt_cons :
    (c d : Char) (s t : String)
    → str_lt (String.◌∷◌ c s) (String.◌∷◌ d t)
      ≡ is_lt (then (compare_ℕ (code c) (code d)) (compare_str s t))
str_lt_cons c d s t = ap is_lt (compare.cons-cons c d s t)

str_lt_nil-cons : (d : Char) (t : String) → str_lt String.[] (String.◌∷◌ d t) ≡ true
str_lt_nil-cons d t = ap is_lt (compare.nil-cons d t)

str_lt_cons-nil : (c : Char) (s : String) → str_lt (String.◌∷◌ c s) String.[] ≡ false
str_lt_cons-nil c s = ap is_lt (compare.cons-nil c s)

pub str_lt_asym : (s t : String) → str_lt s t ≡ true → str_lt t s ≡ false
str_lt_asym String.[] String.[] h = refl
str_lt_asym String.[] (String.◌∷◌ d t) h = str_lt_cons-nil d t
str_lt_asym (String.◌∷◌ c s) String.[] h = ground (arith, str_lt_cons-nil c s)
str_lt_asym (String.◌∷◌ c s) (String.◌∷◌ d t) h =
    ground (arith, str_lt_cons c d s t, str_lt_cons d c t s, str_lt_asym s t)

-- `not_less`: if `t` is not before `s` and `u` not before `t`, then `u` is not before `s`.
pub not_str_lt_trans :
    (s t u : String) → str_lt t s ≡ false → str_lt u t ≡ false → str_lt u s ≡ false
not_str_lt_trans s String.[] String.[] h k = h
not_str_lt_trans s (String.◌∷◌ d t) String.[] h k = ground (arith, str_lt_nil-cons d t)
not_str_lt_trans String.[] t (String.◌∷◌ e u) h k = str_lt_cons-nil e u
not_str_lt_trans (String.◌∷◌ c s) String.[] (String.◌∷◌ e u) h k =
    ground (arith, str_lt_nil-cons c s)
not_str_lt_trans (String.◌∷◌ c s) (String.◌∷◌ d t) (String.◌∷◌ e u) h k =
    ground
      (arith, str_lt_cons d c t s, str_lt_cons e d u t, str_lt_cons e c u s, not_str_lt_trans s t u)

equal_compare :
    (s t : String) → str_lt s t ≡ false → str_lt t s ≡ false → compare_str s t ≡ Ordering.eq
equal_compare String.[] String.[] h k = compare.nil-nil
equal_compare String.[] (String.◌∷◌ d t) h k = absurd (ground (arith, str_lt_nil-cons d t))
equal_compare (String.◌∷◌ c s) String.[] h k = absurd (ground (arith, str_lt_nil-cons c s))
equal_compare (String.◌∷◌ c s) (String.◌∷◌ d t) h k =
    ground (
      arith,
      str_lt_cons c d s t,
      str_lt_cons d c t s,
      compare.cons-cons c d s t,
      equal_compare s t,
    )

-- Two texts that are not before one another are equal.
pub str_lt_total : (s t : String) → str_lt s t ≡ false → str_lt t s ≡ false → s ≡ t
str_lt_total s t h k = path_by_compare s t (equal_compare s t h k)

pub str_lt_irrefl : (s : String) → str_lt s s ≡ false
str_lt_irrefl s = ground (arith, str_lt_asym s s)

pub str_lt_trans : (s t u : String) → str_lt s t ≡ true → str_lt t u ≡ true → str_lt s u ≡ true
str_lt_trans s t u h k = ground (arith, str_lt_asym s t h, not_str_lt_trans u s t)

-- No text is before the empty one.
pub str_lt-nil : (s : String) → str_lt s "" ≡ false
str_lt-nil String.[] = str_lt_irrefl ""
str_lt-nil (String.◌∷◌ c s) = str_lt_cons-nil c s

pub str_lt_nil : (s : String) → str_eq s "" ≡ false → str_lt "" s ≡ true
str_lt_nil String.[] h = absurd (ground (arith, eq_iff "" ""))
str_lt_nil (String.◌∷◌ c s) h = str_lt_nil-cons c s
