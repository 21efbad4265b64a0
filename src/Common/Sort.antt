-- ===== src/Common/Sort.antt =====
-- Go's `sort.Slice` and `sort.Strings`, as insertion sort by a Boolean order.
use Prim.Native.Nat.{ℕ, zero, suc, ◌≤◌}
use Prim.Native.String.{String}
use mathlib.Core.Path.{◌≡◌, refl, ap, subst, sym}
use mathlib.Core.Bool.{Bool, true, false}
use mathlib.Core.List.{List, [], ◌∷◌, ◌++◌, append-nil}
use mathlib.Core.Logic.{inl, inr}
use native.Mathlib.Omega.{arith}
use sendplane.Common.Tests.{ltb, if◌then◌else◌, Bool-cases, str_lt}
use sendplane.Common.Maps.{Map, keys}
use sendplane.Common.Lists.{length, count, All, All-take, take, limited}

module _ {ℓ} {A : Type ℓ} (less : A → A → Bool) where
  -- `x` goes before the first element that it is less than.
  unfoldable pub insert_sorted : A → List A → List A
  insert_sorted x [] = x ∷ []
  insert_sorted x (y ∷ ys) = if less x y then x ∷ y ∷ ys else y ∷ insert_sorted x ys

  unfoldable pub sort : List A → List A
  unfolding insert_sorted
  sort [] = []
  sort (x ∷ xs) = insert_sorted x (sort xs)

  length-insert_sorted : (x : A) (xs : List A) → length (insert_sorted x xs) ≡ suc (length xs)
  unfolding insert_sorted
  length-insert_sorted x [] = refl
  length-insert_sorted x (y ∷ ys) = ground (arith, length-insert_sorted x ys)

  pub length-sort : (xs : List A) → length (sort xs) ≡ length xs
  unfolding sort
  length-sort [] = refl
  length-sort (x ∷ xs) = ground (arith, length-insert_sorted x (sort xs), length-sort xs)

  All-insert_sorted {κ} :
      (P : A → Type κ) (x : A) (xs : List A) → P x → All P xs → All P (insert_sorted x xs)
  unfolding insert_sorted
  All-insert_sorted P x [] h hs = (h, tt)
  All-insert_sorted P x (y ∷ ys) h hs = elim (Bool-cases (less x y)) [
    | inl e ↦ rw e (h, hs)
    | inr e ↦ rw e (hs.0, All-insert_sorted P x ys h hs.1)
  ]

  -- Sorting keeps what holds of every element.
  pub All-sort {κ} : (P : A → Type κ) (xs : List A) → All P xs → All P (sort xs)
  unfolding sort
  All-sort P [] h = tt
  All-sort P (x ∷ xs) h = All-insert_sorted P x (sort xs) h.0 (All-sort P xs h.1)

  All-insert_sorted_inv {κ} :
      (P : A → Type κ) (x : A) (xs : List A) → All P (insert_sorted x xs) → P x × All P xs
  unfolding insert_sorted
  All-insert_sorted_inv P x [] h = h
  All-insert_sorted_inv P x (y ∷ ys) h = elim (Bool-cases (less x y)) [
    | inl e ↦ rw e at h
    | inr e ↦
        let g : P y × All P (insert_sorted x ys) = rw e at h in
        let (hx, hs) = All-insert_sorted_inv P x ys g.1 in (hx, (g.0, hs))
  ]

  -- What holds of the sorted elements holds of the elements.
  pub All-sort_inv {κ} : (P : A → Type κ) (xs : List A) → All P (sort xs) → All P xs
  unfolding sort
  All-sort_inv P [] h = tt
  All-sort_inv P (x ∷ xs) h =
      let (hx, hs) = All-insert_sorted_inv P x (sort xs) h in (hx, All-sort_inv P xs hs)

  -- No later element comes before an earlier one.
  abbrev pub IsSorted : List A → Type ℓ
  IsSorted [] = Unit
  IsSorted (x ∷ xs) = All (λ y. less y x ≡ false) xs × IsSorted xs

  All-suffix {κ} : (P : A → Type κ) (xs ys : List A) → All P (xs ++ ys) → All P ys
  All-suffix P [] ys h = h
  All-suffix P (x ∷ xs) ys h = All-suffix P xs ys h.1

  IsSorted-take : (n : ℕ) (xs : List A) → IsSorted xs → IsSorted (take n xs)
  IsSorted-take zero xs s = tt
  IsSorted-take (suc n) [] s = tt
  IsSorted-take (suc n) (x ∷ xs) s =
      (All-take (λ y. less y x ≡ false) n xs s.0, IsSorted-take n xs s.1)

  IsSorted-limited : (n : ℕ) (xs : List A) → IsSorted xs → IsSorted (limited n xs)
  unfolding limited
  IsSorted-limited n xs s = elim (Bool-cases (ltb 0 n)) [
    | inr e ↦ rw e s
    | inl e ↦ elim (Bool-cases (ltb n (length xs))) [
      | inl f ↦ rw (e, f) (IsSorted-take n xs s)
      | inr f ↦ rw (e, f) s
    ]
  ]

  All-nothing : (xs : List A) → All (λ x. All (λ z. less z x ≡ false) []) xs
  All-nothing [] = tt
  All-nothing (x ∷ xs) = (tt, All-nothing xs)

  -- The elements left out of a sorted prefix come before none of its elements.
  IsSorted-prefix :
      (n : ℕ) (xs : List A)
      → IsSorted xs
      → (zs : List A) × (xs ≡ take n xs ++ zs)
        × All (λ x. All (λ z. less z x ≡ false) zs) (take n xs)
  IsSorted-prefix zero xs s = (xs, refl, tt)
  IsSorted-prefix (suc n) [] s = ([], refl, tt)
  IsSorted-prefix (suc n) (x ∷ xs) s =
      let (zs, e, h) = IsSorted-prefix n xs s.1 in
      (
        zs,
        ap (◌∷◌ x) e,
        (
          All-suffix (λ y. less y x ≡ false) (take n xs) zs
              (subst (All (λ y. less y x ≡ false)) e s.0),
          h,
        ),
      )

  pub IsSorted-prefix_limited :
      (n : ℕ) (xs : List A)
      → IsSorted xs
      → (zs : List A) × (xs ≡ limited n xs ++ zs)
        × All (λ x. All (λ z. less z x ≡ false) zs) (limited n xs)
  unfolding limited
  IsSorted-prefix_limited n xs s = elim (Bool-cases (ltb 0 n)) [
    | inr e ↦ rw e ([], sym (append-nil xs), All-nothing xs)
    | inl e ↦ elim (Bool-cases (ltb n (length xs))) [
      | inl f ↦ rw (e, f) (IsSorted-prefix n xs s)
      | inr f ↦ rw (e, f) ([], sym (append-nil xs), All-nothing xs)
    ]
  ]

  module _ (asym : (x y : A) → less x y ≡ true → less y x ≡ false)
      (trans : (x y z : A) → less y x ≡ false → less z y ≡ false → less z x ≡ false) where
    All-not_less :
        (x y : A) (zs : List A)
        → less y x ≡ false
        → All (λ z. less z y ≡ false) zs
        → All (λ z. less z x ≡ false) zs
    All-not_less x y [] h hs = tt
    All-not_less x y (z ∷ zs) h hs = (trans x y z h hs.0, All-not_less x y zs h hs.1)

    insert_sorted-IsSorted : (x : A) (xs : List A) → IsSorted xs → IsSorted (insert_sorted x xs)
    unfolding insert_sorted
    insert_sorted-IsSorted x [] s = (tt, tt)
    insert_sorted-IsSorted x (y ∷ ys) s = elim (Bool-cases (less x y)) [
      | inl e ↦ rw e ((asym x y e, All-not_less x y ys (asym x y e) s.0), s)
      | inr e ↦
          rw e
            (All-insert_sorted (λ z. less z y ≡ false) x ys e s.0, insert_sorted-IsSorted x ys s.1)
    ]

    pub sort-IsSorted : (xs : List A) → IsSorted (sort xs)
    unfolding sort
    sort-IsSorted [] = tt
    sort-IsSorted (x ∷ xs) = insert_sorted-IsSorted x (sort xs) (sort-IsSorted xs)

count-insert_sorted :
    (less : String → String → Bool) (k x : String) (xs : List String)
    → count k (insert_sorted less x xs) ≡ count k (x ∷ xs)
unfolding insert_sorted
count-insert_sorted less k x [] = refl
count-insert_sorted less k x (y ∷ ys) = ground (arith, count-insert_sorted less k x ys)

pub count-sort :
    (less : String → String → Bool) (k : String) (xs : List String)
    → count k (sort less xs) ≡ count k xs
unfolding sort
count-sort less k [] = refl
count-sort less k (x ∷ xs) =
    omega (arith, count-insert_sorted less k x (sort less xs), count-sort less k xs)

count-keys-insert_sorted {ℓ} :
    {V : Type ℓ} (less : String × V → String × V → Bool) (k : String) (x : String × V) (m : Map V)
    → count k (keys (insert_sorted less x m)) ≡ count k (keys (x ∷ m))
unfolding insert_sorted
count-keys-insert_sorted less k (j, v) [] = refl
count-keys-insert_sorted less k (j, v) ((i, w) ∷ m) =
    ground (arith, count-keys-insert_sorted less k (j, v) m)

pub count-keys-sort {ℓ} :
    {V : Type ℓ} (less : String × V → String × V → Bool) (k : String) (m : Map V)
    → count k (keys (sort less m)) ≡ count k (keys m)
unfolding sort
count-keys-sort less k [] = refl
count-keys-sort less k ((j, v) ∷ m) =
    omega (arith, count-keys-insert_sorted less k (j, v) (sort less m), count-keys-sort less k m)

count-keys-take-le {ℓ} :
    {V : Type ℓ} (k : String) (n : ℕ) (m : Map V) → count k (keys (take n m)) ≤ count k (keys m)
count-keys-take-le k zero m = omega arith
count-keys-take-le k (suc n) [] = omega arith
count-keys-take-le k (suc n) ((j, v) ∷ m) = omega (arith, count-keys-take-le k n m)

pub count-keys-limited-le {ℓ} :
    {V : Type ℓ} (k : String) (n : ℕ) (m : Map V) → count k (keys (limited n m)) ≤ count k (keys m)
unfolding limited
count-keys-limited-le k n m = ground (arith, count-keys-take-le k n m)

-- `sort.Strings`.
abbrev pub sort_strings : List String → List String
sort_strings = sort str_lt
