-- ===== src/Common/Scanned.antt =====
-- What the searches of Common/Scan find.
use Prim.Native.Nat.{ℕ, zero, suc, ◌+◌, ◌<◌}
use mathlib.Core.Path.{◌≡◌, refl}
use mathlib.Core.Logic.{◌⊎◌, inl, inr}
use mathlib.Core.Bool.{true, false}
use mathlib.Core.Option.{none, some}
use mathlib.Core.List.{[], ◌∷◌, ◌++◌}
use native.Mathlib.Omega.{arith}
use sendplane.Common.Tests.{Option-cases}
use sendplane.Common.Lists.{length, take}
use sendplane.Common.Ascii.{Bytes, has_prefix}
use sendplane.Common.Scan.{has_byte, cut_at, cut_last, drop, hex_encode}

pub cut_at-append :
    (b : ℕ) (s t : Bytes) → has_byte b s ≡ false → cut_at b (s ++ b ∷ t) ≡ some (s, t)
unfolding cut_at has_byte
cut_at-append b [] t h = ground arith
cut_at-append b (c ∷ s) t h = ground (arith, cut_at-append b s t)

cut_last-none : (b : ℕ) (s : Bytes) → has_byte b s ≡ false → cut_last b s ≡ none
unfolding cut_last has_byte
cut_last-none b [] h = refl
cut_last-none b (c ∷ s) h = ground (arith, cut_last-none b s)

pub cut_last-append :
    (b : ℕ) (s t : Bytes) → has_byte b t ≡ false → cut_last b (s ++ b ∷ t) ≡ some (s, t)
unfolding cut_last
cut_last-append b [] t h = ground (arith, cut_last-none b t)
cut_last-append b (c ∷ s) t h = ground (arith, cut_last-append b s t h)

pub append_of_cut_at : (b : ℕ) (s p q : Bytes) → cut_at b s ≡ some (p, q) → s ≡ p ++ b ∷ q
unfolding cut_at
append_of_cut_at b [] p q h = absurd (ground arith)
append_of_cut_at b (c ∷ s) p q h = elim (Option-cases (cut_at b s)) [
  | inl e ↦ ground arith
  | inr (x, e) ↦ ground (arith, append_of_cut_at b s x.0 x.1 e)
]

pub append_of_cut_last : (b : ℕ) (s p q : Bytes) → cut_last b s ≡ some (p, q) → s ≡ p ++ b ∷ q
unfolding cut_last
append_of_cut_last b [] p q h = absurd (ground arith)
append_of_cut_last b (c ∷ s) p q h = elim (Option-cases (cut_last b s)) [
  | inl e ↦ ground arith
  | inr (x, e) ↦ ground (arith, append_of_cut_last b s x.0 x.1 e)
]

pub append_of_has_prefix : (s p : Bytes) → has_prefix s p ≡ true → s ≡ p ++ drop (length p) s
unfolding has_prefix
append_of_has_prefix s [] h = refl
append_of_has_prefix [] (d ∷ p) h = absurd (ground arith)
append_of_has_prefix (c ∷ s) (d ∷ p) h = ground (arith, append_of_has_prefix s p)

-- A hexadecimal text is digits and small letters.
pub has_byte-hex_encode :
    (b : ℕ) (n : ℕ) (s : Bytes)
    → (b < 48) ⊎ ((57 < b) × (b < 97))
    → has_byte b (take n (hex_encode s)) ≡ false
unfolding has_byte hex_encode
has_byte-hex_encode b zero s h = refl
has_byte-hex_encode b (suc n) [] h = refl
has_byte-hex_encode b (suc zero) (c ∷ s) h = ground arith
has_byte-hex_encode b (suc (suc n)) (c ∷ s) h = ground (arith, has_byte-hex_encode b n s h)

pub length-hex_encode : (s : Bytes) → length (hex_encode s) ≡ length s + length s
unfolding hex_encode
length-hex_encode [] = refl
length-hex_encode (c ∷ s) = omega (arith, length-hex_encode s)
