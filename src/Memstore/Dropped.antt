-- ===== src/Memstore/Dropped.antt =====
-- store/memstore/repos.go: the deletion of picked rows makes progress.
use Prim.Native.Nat.{min}
use sendplane.Common.{
  ℕ, suc, ◌+◌, ◌≤◌, ◌<◌, String, ◌≡◌, refl, ap, Bool, true, false, List, [], ◌∷◌, none, some,
  eq_iff, arith, Map, IsMap, lookup, delete, lookup-delete, contains, contains-count, if◌then◌else◌,
  keys, matching, count, count-keys-delete-le, picked, passes_of_picked, count-picked-le_one,
  length, length-sort, length-take, limited, sort_strings, str_lt,
}
use sendplane.Memstore.Aged.{drop_keys}

module _ {V : Type 0} where
  pub lookup-drop_keys :
      (ks : List String) (k : String) (rows : Map V)
      → lookup k (drop_keys ks rows) ≡ (if contains ks k then none else lookup k rows)
  unfolding drop_keys
  lookup-drop_keys [] k rows = refl
  lookup-drop_keys (j ∷ ks) k rows =
      ground (arith, lookup-delete j k rows, lookup-drop_keys ks k (delete j rows))

  pub drop_keys-IsMap : (ks : List String) (rows : Map V) → IsMap rows → IsMap (drop_keys ks rows)
  unfolding drop_keys
  drop_keys-IsMap [] rows m = m
  drop_keys-IsMap (j ∷ ks) rows m =
      drop_keys-IsMap ks (delete j rows) (λ k. omega (arith, m k, count-keys-delete-le j k rows))

  delete_absent : (k : String) (rows : Map V) → count k (keys rows) ≡ 0 → delete k rows ≡ rows
  unfolding delete
  delete_absent k [] h = refl
  delete_absent k ((j, v) ∷ rows) h = ground (arith, delete_absent k rows)

  module _ (p : String → V → Bool) where
    -- The number of rows that pass.
    abbrev pub remaining : Map V → ℕ
    remaining rows = length (matching p rows)

    abbrev pub row_passes : Map V → String → Bool
    row_passes rows k = elim (lookup k rows) [ none ↦ false | some v ↦ p k v ]

    remaining-delete :
        (k : String) (rows : Map V)
        → count k (keys rows) ≤ 1
        → row_passes rows k ≡ true
        → suc (remaining (delete k rows)) ≡ remaining rows
    unfolding matching delete lookup
    remaining-delete k [] m h = absurd (ground arith)
    remaining-delete k ((j, v) ∷ rows) m h =
        ground (arith, eq_iff j k, delete_absent k rows, remaining-delete k rows)

    -- Rows that all pass, each named once, are as many fewer afterwards.
    remaining-drop_keys :
        (ks : List String) (rows : Map V)
        → IsMap rows
        → ((k : String) → count k ks ≤ 1)
        → ((k : String) → contains ks k ≡ true → row_passes rows k ≡ true)
        → remaining (drop_keys ks rows) + length ks ≡ remaining rows
    unfolding drop_keys
    remaining-drop_keys [] rows m once h = omega arith
    remaining-drop_keys (k ∷ ks) rows m once h = omega (
      arith,
      remaining-delete k rows (m k) (h k (ground (arith, eq_iff k k))),
      remaining-drop_keys ks (delete k rows)
          (λ j. omega (arith, m j, count-keys-delete-le k j rows)) (λ j. omega (arith, once j))
          (λ j c. ground (arith, once j, contains-count ks j, lookup-delete k j rows, h j)),
    )

    length-keys : (rows : Map V) → length (keys rows) ≡ length rows
    length-keys [] = refl
    length-keys ((k, v) ∷ rows) = ap suc (length-keys rows)

    -- A chunk takes off the rows that pass, up to a positive limit.
    pub remaining-picked :
        (limit : ℕ) (rows : Map V)
        → IsMap rows
        → 0 < limit
        → (length (picked p limit rows) ≡ min limit (remaining rows))
          × (remaining (drop_keys (picked p limit rows) rows) + length (picked p limit rows)
              ≡ remaining rows)
    unfolding limited
    remaining-picked limit rows m positive = (
      ground (
        arith,
        length-keys (matching p rows),
        length-sort str_lt (keys (matching p rows)),
        length-take limit (sort_strings (keys (matching p rows))),
      ),
      remaining-drop_keys (picked p limit rows) rows m
          (λ k. count-picked-le_one p limit rows k (m k))
          (λ k c. passes_of_picked p limit rows k (m k) c),
    )
