-- ===== src/Common/Lists.antt =====
-- Lists measured by native numbers, and lists of texts counted.
use Prim.Native.Nat.{min, ℕ, zero, suc, ◌+◌, ◌≤◌, ◌<◌}
use Prim.Native.String.{String}
use mathlib.Core.Path.{◌≡◌, refl}
use mathlib.Core.Bool.{Bool, false, ◌||◌}
use mathlib.Core.List.{List, [], ◌∷◌, ◌++◌}
use native.Mathlib.Omega.{arith}
use text.Mathlib.Text.{◌==◌ as str_eq}
use sendplane.Common.Tests.{ltb, if◌then◌else◌}

module _ {ℓ} {A : Type ℓ} where
  abbrev pub length : List A → ℕ
  length [] = 0
  length (x ∷ xs) = suc (length xs)

  abbrev pub take : ℕ → List A → List A
  take zero ys = []
  take (suc n) [] = []
  take (suc n) (y ∷ ys) = y ∷ take n ys

  -- A predicate that holds of every element: it computes to tuples.
  abbrev pub All {κ} : (A → Type κ) → List A → Type κ
  All P [] = Unit
  All P (x ∷ xs) = P x × All P xs

  -- The elements that pass a Boolean test.
  abbrev pub select : (A → Bool) → List A → List A
  select p [] = []
  select p (x ∷ xs) = if p x then x ∷ select p xs else select p xs

  pub length-append : (xs ys : List A) → length (xs ++ ys) ≡ length xs + length ys
  length-append [] ys = omega arith
  length-append (x ∷ xs) ys = omega (arith, length-append xs ys)

  length-take-le : (n : ℕ) (xs : List A) → length (take n xs) ≤ n
  length-take-le zero xs = omega arith
  length-take-le (suc n) [] = omega arith
  length-take-le (suc n) (x ∷ xs) = omega (arith, length-take-le n xs)

  pub length-take : (n : ℕ) (xs : List A) → length (take n xs) ≡ min n (length xs)
  length-take zero xs = omega arith
  length-take (suc n) [] = omega arith
  length-take (suc n) (x ∷ xs) = omega (arith, length-take n xs)

  length-take-le_length : (n : ℕ) (xs : List A) → length (take n xs) ≤ length xs
  length-take-le_length zero xs = omega arith
  length-take-le_length (suc n) [] = omega arith
  length-take-le_length (suc n) (x ∷ xs) = omega (arith, length-take-le_length n xs)

  pub All-take {κ} : (P : A → Type κ) (n : ℕ) (xs : List A) → All P xs → All P (take n xs)
  All-take P zero xs h = tt
  All-take P (suc n) [] h = tt
  All-take P (suc n) (x ∷ xs) h = (h.0, All-take P n xs h.1)

  pub All-append {κ} : (P : A → Type κ) (xs ys : List A) → All P xs → All P ys → All P (xs ++ ys)
  All-append P [] ys h k = k
  All-append P (x ∷ xs) ys h k = (h.0, All-append P xs ys h.1 k)

  All-swap_nil {κ} : (R : A → A → Type κ) (zs : List A) → All (λ z. All (λ x. R z x) []) zs
  All-swap_nil R [] = tt
  All-swap_nil R (z ∷ zs) = (tt, All-swap_nil R zs)

  All-swap_cons {κ} :
      (R : A → A → Type κ) (x : A) (xs zs : List A)
      → All (λ z. R z x) zs
      → All (λ z. All (λ y. R z y) xs) zs
      → All (λ z. All (λ y. R z y) (x ∷ xs)) zs
  All-swap_cons R x xs [] h k = tt
  All-swap_cons R x xs (z ∷ zs) h k = ((h.0, k.0), All-swap_cons R x xs zs h.1 k.1)

  -- Two quantifiers over lists change places.
  pub All-swap {κ} :
      (R : A → A → Type κ) (xs zs : List A)
      → All (λ x. All (λ z. R z x) zs) xs
      → All (λ z. All (λ x. R z x) xs) zs
  All-swap R [] zs h = All-swap_nil R zs
  All-swap R (x ∷ xs) zs h = All-swap_cons R x xs zs h.0 (All-swap R xs zs h.1)

  pub All-weaken {κ μ} :
      (P : A → Type κ) (Q : A → Type μ) (xs : List A) → ((x : A) → P x → Q x) → All P xs → All Q xs
  All-weaken P Q [] f h = tt
  All-weaken P Q (x ∷ xs) f h = (f x h.0, All-weaken P Q xs f h.1)

  -- Go's `if limit > 0 && len(xs) > limit { xs = xs[:limit] }`.
  unfoldable pub limited : ℕ → List A → List A
  limited n xs = if ltb 0 n then (if ltb n (length xs) then take n xs else xs) else xs

  pub All-limited {κ} : (P : A → Type κ) (n : ℕ) (xs : List A) → All P xs → All P (limited n xs)
  unfolding limited
  All-limited P n xs h = ground (arith, All-take P n xs h)

  -- A positive limit bounds the result; no limit (0) keeps everything.
  pub length-limited-le : (n : ℕ) (xs : List A) → 0 < n → length (limited n xs) ≤ n
  unfolding limited
  length-limited-le n xs h = ground (arith, length-take-le n xs)

-- How often a text stands in a list of texts.
abbrev pub count : String → List String → ℕ
count k [] = 0
count k (j ∷ js) = (if str_eq j k then 1 else 0) + count k js

abbrev pub contains : List String → String → Bool
contains [] k = false
contains (j ∷ js) k = str_eq j k || contains js k

pub contains-count : (js : List String) (k : String) → contains js k ≡ ltb 0 (count k js)
contains-count [] k = refl
contains-count (j ∷ js) k = ground (arith, contains-count js k)

count-take-le : (k : String) (n : ℕ) (js : List String) → count k (take n js) ≤ count k js
count-take-le k zero js = omega arith
count-take-le k (suc n) [] = omega arith
count-take-le k (suc n) (j ∷ js) = omega (arith, count-take-le k n js)

pub count-limited-le : (k : String) (n : ℕ) (js : List String) → count k (limited n js) ≤ count k js
unfolding limited
count-limited-le k n js = ground (arith, count-take-le k n js)
