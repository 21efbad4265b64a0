-- ===== src/Common/Scan.antt =====
-- What Go's packages strings, strconv and encoding/hex do on texts, as lists of their bytes (ASCII).
use Prim.Native.Nat.{ℕ, zero, suc, ◌+◌, ◌-◌, ◌*◌, ◌/◌, ◌%◌}
use mathlib.Core.Path.{◌≡◌}
use mathlib.Core.Logic.{◌↔◌}
use mathlib.Core.Bool.{Bool, true, false, ◌&&◌, ◌||◌}
use mathlib.Core.Option.{Option, none, some}
use mathlib.Core.List.{List, [], ◌∷◌}
use native.Mathlib.Omega.{arith}
use sendplane.Common.Tests.{◌==◌, leb, ltb, if◌then◌else◌}
use sendplane.Common.Ascii.{Bytes, is_digit, to_lower}

unfoldable pub bytes_eq : Bytes → Bytes → Bool
bytes_eq [] [] = true
bytes_eq [] (d ∷ t) = false
bytes_eq (c ∷ s) [] = false
bytes_eq (c ∷ s) (d ∷ t) = c == d && bytes_eq s t

pub bytes_eq_iff : (s t : Bytes) → (bytes_eq s t ≡ true) ↔ (s ≡ t)
unfolding bytes_eq
bytes_eq_iff [] [] = ground arith
bytes_eq_iff [] (d ∷ t) = ground arith
bytes_eq_iff (c ∷ s) [] = ground arith
bytes_eq_iff (c ∷ s) (d ∷ t) = ground (arith, bytes_eq_iff s t)

-- strings.EqualFold
abbrev pub equal_fold : Bytes → Bytes → Bool
equal_fold s t = bytes_eq (to_lower s) (to_lower t)

abbrev pub is_empty : Bytes → Bool
is_empty [] = true
is_empty (c ∷ s) = false

module _ {ℓ} {A : Type ℓ} where
  abbrev pub drop : ℕ → List A → List A
  drop zero xs = xs
  drop (suc n) [] = []
  drop (suc n) (x ∷ xs) = drop n xs

unfoldable pub has_byte : ℕ → Bytes → Bool
has_byte b [] = false
has_byte b (c ∷ s) = c == b || has_byte b s

-- The parts before and after the first occurrence of a byte: strings.Cut, or a split at the index of
-- strings.IndexByte.
unfoldable pub cut_at : ℕ → Bytes → Option (Bytes × Bytes)
cut_at b [] = none
cut_at b (c ∷ s) =
    if c == b
    then some ([], s)
    else elim (cut_at b s) [ none ↦ none | some p ↦ some (c ∷ p.0, p.1) ]

-- The parts before and after the last occurrence: a split at the index of strings.LastIndex.
unfoldable pub cut_last : ℕ → Bytes → Option (Bytes × Bytes)
cut_last b [] = none
cut_last b (c ∷ s) = elim (cut_last b s) [
  | some p ↦ some (c ∷ p.0, p.1)
  | none ↦ if c == b then some ([], s) else none
]

-- The six spaces of ASCII.
abbrev pub is_blank : ℕ → Bool
is_blank c = c == b' ' || (leb 9 c && leb c 13)

push_word : Bytes → List Bytes → List Bytes
push_word [] ws = ws
push_word (c ∷ w) ws = (c ∷ w) ∷ ws

-- The word that has begun, and the words after it.
fields_from : Bytes → Bytes × List Bytes
unfolding push_word
fields_from [] = ([], [])
fields_from (c ∷ s) =
    let r = fields_from s in if is_blank c then ([], push_word r.0 r.1) else (c ∷ r.0, r.1)

-- strings.Fields
unfoldable pub fields : Bytes → List Bytes
unfolding fields_from push_word
fields s = let r = fields_from s in push_word r.0 r.1

-- The value of a text that is digits only.
unfoldable pub number_from : ℕ → Bytes → Option ℕ
number_from acc [] = some acc
number_from acc (c ∷ s) =
    let rest = number_from (acc * 10 + (c - b'0')) s in if is_digit c then rest else none

bounded_number : ℕ → Bytes → Option ℕ
unfolding number_from
bounded_number most [] = none
bounded_number most (c ∷ s) = elim (number_from 0 (c ∷ s)) [
  | none ↦ none
  | some v ↦ if ltb most v then none else some v
]

-- strconv.Atoi behind a check that the result lies between 0 and `most`: a sign is allowed, and a
-- negative number passes only as -0.
unfoldable pub atoi_up_to : ℕ → Bytes → Option ℕ
unfolding bounded_number
atoi_up_to most [] = none
atoi_up_to most (c ∷ s) =
    if c == b'+'
    then bounded_number most s
    else if c == b'-'
    then bounded_number 0 s
    else bounded_number most (c ∷ s)

hex_digit : ℕ → ℕ
hex_digit n = if ltb n 10 then b'0' + n else b'a' + (n - 10)

-- hex.EncodeToString
unfoldable pub hex_encode : Bytes → Bytes
unfolding hex_digit
hex_encode [] = []
hex_encode (b ∷ bs) = hex_digit (b / 16) ∷ hex_digit (b % 16) ∷ hex_encode bs
