-- ===== src/Common/Maps.antt =====
-- Go's maps with string keys, as association lists. The order of the list stands for the order in
-- which `range` visits the entries, so nothing may rest on it.
use Prim.Native.Nat.{◌+◌, ◌≤◌}
use Prim.Native.String.{String}
use mathlib.Core.Path.{◌≡◌, refl, subst}
use mathlib.Core.Bool.{Bool, true, false}
use mathlib.Core.Option
use mathlib.Core.Option.{Option, none, some}
use mathlib.Core.List.{List, [], ◌∷◌, map}
use mathlib.Core.Logic.{◌⊎◌, inl, inr}
use native.Mathlib.Omega.{arith}
use text.Mathlib.Text.{◌==◌ as str_eq}
use text.Mathlib.TextEquality.{eq_iff}
use sendplane.Common.Tests.{Bool-cases, if◌then◌else◌}
use sendplane.Common.Lists.{All, count, contains, contains-count}

abbrev pub Map {ℓ} : Type ℓ → Type ℓ
Map V = List (String × V)

abbrev pub keys {ℓ} : {V : Type ℓ} → Map V → List String
keys [] = []
keys ((k, v) ∷ m) = k ∷ keys m

-- No key stands twice.
abbrev pub IsMap {ℓ} : {V : Type ℓ} → Map V → Type 0
IsMap m = (k : String) → count k (keys m) ≤ 1

-- The row that a test has found.
pub found {ℓ} :
    {V : Type ℓ} (o : Option V) (q : V → Bool)
    → elim o [ none ↦ false | some v ↦ q v ] ≡ true
    → (v : V) × (o ≡ some v) × (q v ≡ true)
found none q h = absurd (ground arith)
found (some v) q h = (v, refl, h)

module _ {ℓ} {V : Type ℓ} where
  unfoldable pub lookup : String → Map V → Option V
  lookup k [] = none
  lookup k ((j, v) ∷ m) = if str_eq j k then some v else lookup k m

  unfoldable pub insert : String → V → Map V → Map V
  insert k v [] = (k, v) ∷ []
  insert k v ((j, w) ∷ m) = if str_eq j k then (j, v) ∷ m else (j, w) ∷ insert k v m

  unfoldable pub delete : String → Map V → Map V
  delete k [] = []
  delete k ((j, w) ∷ m) = if str_eq j k then delete k m else (j, w) ∷ delete k m

  -- `m[k].f = ...` through the pointer that the map holds: a missing key is not reached.
  unfoldable pub adjust : String → (V → V) → Map V → Map V
  adjust k f [] = []
  adjust k f ((j, w) ∷ m) = if str_eq j k then (j, f w) ∷ m else (j, w) ∷ adjust k f m

  -- The loop `for _, id := range ids { row := m[id]; ... }`.
  unfoldable pub adjust_all : List String → (V → V) → Map V → Map V
  adjust_all [] f m = m
  adjust_all (k ∷ ks) f m = adjust_all ks f (adjust k f m)

  -- The entries that pass a test of key and value.
  unfoldable pub matching : (String → V → Bool) → Map V → Map V
  matching p [] = []
  matching p ((k, v) ∷ m) = if p k v then (k, v) ∷ matching p m else matching p m

  abbrev pub values : Map V → List V
  values [] = []
  values ((k, v) ∷ m) = v ∷ values m

  pub lookup-insert :
      (k j : String) (v : V) (m : Map V)
      → lookup j (insert k v m) ≡ (if str_eq k j then some v else lookup j m)
  unfolding lookup insert
  lookup-insert k j v ((i, w) ∷ m) =
      ground (lookup-insert k j v m, eq_iff i j, eq_iff k j, eq_iff i k, arith)
  lookup-insert k j v [] = refl

  pub lookup-delete :
      (k j : String) (m : Map V) → lookup j (delete k m) ≡ (if str_eq k j then none else lookup j m)
  unfolding lookup delete
  lookup-delete k j [] = ground arith
  lookup-delete k j ((i, w) ∷ m) =
      ground (arith, eq_iff k j, eq_iff i k, eq_iff i j, lookup-delete k j m)

  pub lookup-adjust :
      (k j : String) (f : V → V) (m : Map V)
      → lookup j (adjust k f m) ≡ (if str_eq k j then Option.map f (lookup j m) else lookup j m)
  unfolding lookup adjust
  lookup-adjust k j f [] = ground arith
  lookup-adjust k j f ((i, w) ∷ m) =
      ground (arith, eq_iff k j, eq_iff i k, eq_iff i j, lookup-adjust k j f m)

  -- The row that is there is the one that changes.
  pub lookup_adjusted :
      (k j : String) (f : V → V) (m : Map V) (row : V)
      → k ≡ j
      → lookup j m ≡ some row
      → lookup j (adjust k f m) ≡ some (f row)
  lookup_adjusted k j f m row same at = ground (arith, eq_iff k j, lookup-adjust k j f m)

  pub keys-adjust : (k : String) (f : V → V) (m : Map V) → keys (adjust k f m) ≡ keys m
  unfolding adjust
  keys-adjust k f [] = refl
  keys-adjust k f ((j, w) ∷ m) = ground (arith, keys-adjust k f m)

  pub keys-adjust_all :
      (ks : List String) (f : V → V) (m : Map V) → keys (adjust_all ks f m) ≡ keys m
  unfolding adjust_all
  keys-adjust_all [] f m = refl
  keys-adjust_all (k ∷ ks) f m =
      ground (arith, keys-adjust k f m, keys-adjust_all ks f (adjust k f m))

  -- A row whose key is listed once is changed once; the other rows stay.
  pub lookup-adjust_all :
      (ks : List String) (f : V → V) (m : Map V) (j : String)
      → count j ks ≤ 1
      → lookup j (adjust_all ks f m)
        ≡ (if contains ks j then Option.map f (lookup j m) else lookup j m)
  unfolding adjust_all
  lookup-adjust_all [] f m j h = refl
  lookup-adjust_all (k ∷ ks) f m j h =
      ground
        (arith, contains-count ks j, lookup-adjust k j f m, lookup-adjust_all ks f (adjust k f m) j)

  pub count-keys-insert :
      (k j : String) (v : V) (m : Map V)
      → count j (keys (insert k v m)) ≡ (
          if contains (keys m) k
          then count j (keys m)
          else (if str_eq k j then 1 else 0) + count j (keys m))
  unfolding insert
  count-keys-insert k j v [] = ground arith
  count-keys-insert k j v ((i, w) ∷ m) =
      ground (arith, eq_iff k j, eq_iff i k, eq_iff i j, count-keys-insert k j v m)

  -- Selecting entries adds no key.
  pub count-keys-matching-le :
      (p : String → V → Bool) (k : String) (m : Map V)
      → count k (keys (matching p m)) ≤ count k (keys m)
  unfolding matching
  count-keys-matching-le p k [] = omega arith
  count-keys-matching-le p k ((j, v) ∷ m) = ground (arith, count-keys-matching-le p k m)

  lookup_absent : (k : String) (m : Map V) → count k (keys m) ≡ 0 → lookup k m ≡ none
  unfolding lookup
  lookup_absent k [] h = refl
  lookup_absent k ((j, v) ∷ m) h = ground (arith, lookup_absent k m)

  -- In a map, a key is selected exactly when its value passes the test.
  pub contains-matching :
      (p : String → V → Bool) (k : String) (m : Map V)
      → count k (keys m) ≤ 1
      → contains (keys (matching p m)) k ≡ elim (lookup k m) [ none ↦ false | some v ↦ p k v ]
  unfolding matching lookup
  contains-matching p k [] h = refl
  contains-matching p k ((j, v) ∷ m) h = ground (
    arith,
    eq_iff j k,
    lookup_absent k m,
    count-keys-matching-le p k m,
    contains-count (keys (matching p m)) k,
    contains-matching p k m,
  )

  pub count-keys-delete-le :
      (k j : String) (m : Map V) → count j (keys (delete k m)) ≤ count j (keys m)
  unfolding delete
  count-keys-delete-le k j [] = omega arith
  count-keys-delete-le k j ((i, w) ∷ m) = ground (arith, count-keys-delete-le k j m)

  pub lookup-adjust_inv :
      (k j : String) (f : V → V) (m : Map V) {e : V}
      → lookup j (adjust k f m) ≡ some e
      → (d : V) × (lookup j m ≡ some d) × ((e ≡ d) ⊎ (e ≡ f d))
  lookup-adjust_inv k j f m h = ground (arith, lookup-adjust k j f m)

  All-lookup_from :
      (k : String) (v : V) (m n : Map V)
      → count k (keys n) ≡ 0
      → All (λ e. lookup e.0 m ≡ some e.1) n
      → All (λ e. lookup e.0 ((k, v) ∷ m) ≡ some e.1) n
  unfolding lookup
  All-lookup_from k v m [] z h = tt
  All-lookup_from k v m ((j, w) ∷ n) z h =
      (ground (arith, eq_iff k j, eq_iff j k), All-lookup_from k v m n (omega arith) h.1)

  -- In a map, an entry is what its key looks up.
  pub All-lookup : (m : Map V) → IsMap m → All (λ e. lookup e.0 m ≡ some e.1) m
  unfolding lookup
  All-lookup [] d = tt
  All-lookup ((k, v) ∷ m) d = (
    ground (arith, eq_iff k k),
    All-lookup_from k v m m (ground (arith, d k, eq_iff k k))
        (All-lookup m (λ j. omega (arith, d j))),
  )

  -- The selected entries pass the test, and keep what holds of all.
  pub All-matching {κ} :
      (P : String × V → Type κ) (p : String → V → Bool) (m : Map V)
      → All P m
      → All (λ e. P e × (p e.0 e.1 ≡ true)) (matching p m)
  unfolding matching
  All-matching P p [] h = tt
  All-matching P p ((k, v) ∷ m) h = elim (Bool-cases (p k v)) [
    | inl e ↦ rw e ((h.0, e), All-matching P p m h.1)
    | inr e ↦ rw e (All-matching P p m h.1)
  ]

  All-contains_from :
      (k : String) (ks : List String) (n : Map V)
      → All (λ e. contains ks e.0 ≡ true) n
      → All (λ e. contains (k ∷ ks) e.0 ≡ true) n
  All-contains_from k ks [] h = tt
  All-contains_from k ks ((j, w) ∷ n) h = (ground arith, All-contains_from k ks n h.1)

  pub All-contains : (m : Map V) → All (λ e. contains (keys m) e.0 ≡ true) m
  All-contains [] = tt
  All-contains ((k, v) ∷ m) =
      (ground (arith, eq_iff k k), All-contains_from k (keys m) m (All-contains m))

  -- What follows for each entry holds of all.
  pub All-imp {κ μ} :
      (P : String × V → Type κ) (Q : String × V → Type μ) (m : Map V)
      → ((e : String × V) → P e → Q e)
      → All P m
      → All Q m
  All-imp P Q [] f h = tt
  All-imp P Q (e ∷ m) f h = (f e h.0, All-imp P Q m f h.1)

  pub All-both {κ μ} :
      (P : String × V → Type κ) (Q : String × V → Type μ) (m : Map V)
      → All P m
      → All Q m
      → All (λ e. P e × Q e) m
  All-both P Q [] h k = tt
  All-both P Q (e ∷ m) h k = ((h.0, k.0), All-both P Q m h.1 k.1)

  pub All-values {κ μ} :
      {W : Type κ} (Q : W → Type μ) (f : V → W) (m : Map V)
      → All (λ e. Q (f e.1)) m
      → All Q (map f (values m))
  All-values Q f [] h = tt
  All-values Q f (e ∷ m) h = (h.0, All-values Q f m h.1)

  pub lookup-matching :
      (p : String → V → Bool) (k : String) (m : Map V)
      → count k (keys m) ≤ 1
      → lookup k (matching p m)
        ≡ elim (lookup k m) [ none ↦ none | some v ↦ if p k v then some v else none ]
  unfolding matching lookup
  lookup-matching p k [] h = refl
  lookup-matching p k ((j, v) ∷ m) h = ground (
    arith,
    eq_iff j k,
    lookup_absent k m,
    lookup_absent k (matching p m),
    count-keys-matching-le p k m,
    lookup-matching p k m,
  )

  -- What holds of every entry holds of the entry that a key looks up.
  pub All_at {κ} :
      (P : String × V → Type κ) (k : String) (v : V) (m : Map V)
      → All P m
      → lookup k m ≡ some v
      → P (k, v)
  unfolding lookup
  All_at P k v [] h e = absurd (ground arith)
  All_at P k v ((j, w) ∷ m) h e = elim (Bool-cases (str_eq j k)) [
    | inl same ↦
        let hit : ◌≡◌ {A = String × V} (j, w) (k, v) = ground (arith, eq_iff j k) in subst P hit h.0
    | inr other ↦ All_at P k v m h.1 (rw other at e)
  ]
