-- ===== src/Common/Strict.antt =====
-- Lists of texts in strictly ascending order: the order in which a table's identifiers are paged.
use Prim.Native.Nat.{◌≤◌}
use Prim.Native.String.{String}
use mathlib.Core.Path.{◌≡◌, refl, sym, subst}
use mathlib.Core.Bool.{true, false, ◌&&◌, ◌||◌}
use mathlib.Core.List.{List, [], ◌∷◌, ◌++◌}
use mathlib.Core.Logic.{inl, inr}
use native.Mathlib.Omega.{arith}
use text.Mathlib.Text.{◌==◌ as str_eq}
use text.Mathlib.TextEquality.{eq_iff}
use sendplane.Common.Tests.{str_lt, Bool-cases}
use sendplane.Common.Lists.{count, contains, All}
use sendplane.Common.Sort.{IsSorted}
use sendplane.Common.Texts.{str_lt_total, str_lt_irrefl, str_lt_asym}

abbrev pub IsStrict : List String → Type 0
IsStrict [] = Unit
IsStrict (x ∷ xs) = All (λ y. str_lt x y ≡ true) xs × IsStrict xs

-- The last text of a list, or the first argument.
abbrev pub last_of : String → List String → String
last_of x [] = x
last_of x (y ∷ ys) = last_of y ys

sorted_after :
    (x : String) (xs : List String)
    → All (λ y. str_lt y x ≡ false) xs
    → count x xs ≡ 0
    → All (λ y. str_lt x y ≡ true) xs
sorted_after x [] h z = tt
sorted_after x (y ∷ ys) h z = (
  elim (Bool-cases (str_lt x y)) [
    | inl e ↦ e
    | inr e ↦ absurd (ground (arith, h.0, eq_iff y x, str_lt_total x y e h.0))
  ],
  sorted_after x ys h.1 (ground arith),
)

-- A sorted list in which no text stands twice.
pub IsStrict-of_sorted :
    (xs : List String) → IsSorted str_lt xs → ((k : String) → count k xs ≤ 1) → IsStrict xs
IsStrict-of_sorted [] s once = tt
IsStrict-of_sorted (x ∷ xs) s once = (
  sorted_after x xs s.0 (ground (arith, once x, eq_iff x x)),
  IsStrict-of_sorted xs s.1 (λ k. ground (arith, once k)),
)

lt_of_contains :
    (x k : String) (xs : List String)
    → All (λ y. str_lt x y ≡ true) xs
    → contains xs k ≡ true
    → str_lt x k ≡ true
lt_of_contains x k [] h c = absurd (ground arith)
lt_of_contains x k (y ∷ ys) h c = ground (arith, h.0, eq_iff y k, lt_of_contains x k ys h.1)

same_tail :
    (x k : String) (xs ys : List String)
    → IsStrict (x ∷ xs)
    → IsStrict (x ∷ ys)
    → contains (x ∷ xs) k ≡ contains (x ∷ ys) k
    → contains xs k ≡ contains ys k
same_tail x k xs ys s t h = ground (
  arith,
  eq_iff x k,
  str_lt_irrefl x,
  Bool-cases (contains xs k),
  lt_of_contains x k xs s.0,
  lt_of_contains x k ys t.0,
)

same_head :
    (x y : String) (xs ys : List String)
    → IsStrict (x ∷ xs)
    → IsStrict (y ∷ ys)
    → ((k : String) → contains (x ∷ xs) k ≡ contains (y ∷ ys) k)
    → x ≡ y
same_head x y xs ys s t h = elim (Bool-cases (str_eq x y)) [
  | inl e ↦ (eq_iff x y).0 e
  | inr e ↦ absurd (
      ground (
        arith,
        h x,
        h y,
        eq_iff x x,
        eq_iff y y,
        eq_iff y x,
        eq_iff x y,
        lt_of_contains x y xs s.0,
        lt_of_contains y x ys t.0,
        str_lt_asym x y,
      ))
]

-- Two such lists with the same elements are equal.
pub IsStrict-ext :
    (xs ys : List String)
    → IsStrict xs
    → IsStrict ys
    → ((k : String) → contains xs k ≡ contains ys k)
    → xs ≡ ys
IsStrict-ext [] [] s t h = refl
IsStrict-ext [] (y ∷ ys) s t h = absurd (ground (arith, h y, eq_iff y y))
IsStrict-ext (x ∷ xs) [] s t h = absurd (ground (arith, h x, eq_iff x x))
IsStrict-ext (x ∷ xs) (y ∷ ys) s t h =
    let e = same_head x y xs ys s t h in
    let t' = subst (λ (z : String). IsStrict (z ∷ ys)) (sym e) t in
    let h' =
      subst (λ (z : String). (k : String) → contains (x ∷ xs) k ≡ contains (z ∷ ys) k) (sym e) h in
    λ i. e i ∷ IsStrict-ext xs ys s.1 t.1 (λ k. same_tail x k xs ys s t' (h' k)) i

pub contains-append :
    (k : String) (xs ys : List String) → contains (xs ++ ys) k ≡ (contains xs k || contains ys k)
contains-append k [] ys = refl
contains-append k (x ∷ xs) ys = ground (arith, contains-append k xs ys)

pub IsStrict-suffix : (xs ys : List String) → IsStrict (xs ++ ys) → IsStrict ys
IsStrict-suffix [] ys s = s
IsStrict-suffix (x ∷ xs) ys s = IsStrict-suffix xs ys s.1

before_last :
    (x y : String) (ys zs : List String)
    → All (λ k. str_lt x k ≡ true) (y ∷ ys ++ zs)
    → str_lt x (last_of y ys) ≡ true
before_last x y [] zs h = h.0
before_last x y (w ∷ ws) zs h = before_last x w ws zs h.1

-- What stands after a prefix that is not empty are the elements after its last one.
pub contains_after :
    (k x : String) (xs zs : List String)
    → IsStrict (x ∷ xs ++ zs)
    → contains zs k ≡ (contains (x ∷ xs ++ zs) k && str_lt (last_of x xs) k)
contains_after k x [] zs s =
    ground
      (arith, eq_iff x k, str_lt_irrefl x, Bool-cases (contains zs k), lt_of_contains x k zs s.0)
contains_after k x (y ∷ ys) zs s = ground (
  arith,
  eq_iff x k,
  contains_after k y ys zs s.1,
  before_last x y ys zs s.0,
  str_lt_asym x (last_of y ys),
)

pub contains-last_of :
    (x : String) (xs zs : List String) → contains (x ∷ xs ++ zs) (last_of x xs) ≡ true
contains-last_of x [] zs = ground (arith, eq_iff x x)
contains-last_of x (y ∷ ys) zs = ground (arith, contains-last_of y ys zs)

-- No element of the prefix is after its last one.
pub not_after_last :
    (k x : String) (xs zs : List String)
    → IsStrict (x ∷ xs ++ zs)
    → contains (x ∷ xs) k ≡ true
    → str_lt (last_of x xs) k ≡ false
not_after_last k x [] zs s h = ground (arith, eq_iff x k, str_lt_irrefl x)
not_after_last k x (y ∷ ys) zs s h = ground (
  arith,
  eq_iff x k,
  not_after_last k y ys zs s.1,
  before_last x y ys zs s.0,
  str_lt_asym x (last_of y ys),
)
