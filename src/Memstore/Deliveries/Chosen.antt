-- ===== src/Memstore/Deliveries/Chosen.antt =====
-- What a bulk operation changes: exactly the rows it chose, each once.
use sendplane.Common.{
  ℕ, ◌≤◌, ◌<◌, String, ◌≡◌, none, some, Bool, true, false, arith, if◌then◌else◌, Map, IsMap, keys,
  lookup, matching, contains, contains-count, count, count-sort, count-limited-le,
  count-keys-matching-le, contains-matching, lookup-adjust_all, sort_strings, str_lt, limited,
  length-limited-le,
}
use mathlib.Core.Option
use sendplane.Store.Delivery.{Delivery}
use sendplane.Memstore.{TenantData}
use sendplane.Memstore.Deliveries.Bulk.{chosen, change_chosen}

-- `p` holds of the row with a key.
abbrev pub row_passes : (String → Delivery → Bool) → Map Delivery → String → Bool
row_passes p rows j = elim (lookup j rows) [ none ↦ false | some d ↦ p j d ]

module _ (p : String → Delivery → Bool) (limit : ℕ) (rows : Map Delivery) (m : IsMap rows) where
  count-chosen-le : (j : String) → count j (chosen p limit rows) ≤ count j (keys (matching p rows))
  unfolding chosen
  count-chosen-le j = omega (
    arith,
    count-limited-le j limit (sort_strings (keys (matching p rows))),
    count-sort str_lt j (keys (matching p rows)),
  )

  pub count-chosen-le_one : (j : String) → count j (chosen p limit rows) ≤ 1
  count-chosen-le_one j = omega (arith, count-chosen-le j, count-keys-matching-le p j rows, m j)

  -- A chosen row passes the test.
  pub passes_of_chosen :
      (j : String) → contains (chosen p limit rows) j ≡ true → row_passes p rows j ≡ true
  passes_of_chosen j h = ground (
    arith,
    contains-count (chosen p limit rows) j,
    contains-count (keys (matching p rows)) j,
    count-chosen-le j,
    contains-matching p j rows (m j),
  )

  -- Without a limit every row that passes is chosen.
  pub chosen_of_passes :
      (j : String)
      → limit ≡ 0
      → row_passes p rows j ≡ true
      → contains (chosen p limit rows) j ≡ true
  unfolding chosen limited
  chosen_of_passes j z h = ground (
    arith,
    contains-count (chosen p limit rows) j,
    contains-count (keys (matching p rows)) j,
    count-sort str_lt j (keys (matching p rows)),
    contains-matching p j rows (m j),
  )

pub lookup-change_chosen :
    (p : String → Delivery → Bool) (limit : ℕ) (f : Delivery → Delivery) (s : TenantData)
    → IsMap s.deliveries
    → (j : String)
    → lookup j (change_chosen p limit f s).0.deliveries ≡ (
        if contains (chosen p limit s.deliveries) j
        then Option.map f (lookup j s.deliveries)
        else lookup j s.deliveries)
unfolding change_chosen
lookup-change_chosen p limit f s m j =
    lookup-adjust_all (chosen p limit s.deliveries) f s.deliveries j
      (count-chosen-le_one p limit s.deliveries m j)

-- The result counts the rows that changed, and a positive limit bounds it.
change_chosen-le_limit :
    (p : String → Delivery → Bool) (limit : ℕ) (f : Delivery → Delivery) (s : TenantData)
    → 0 < limit
    → (change_chosen p limit f s).1 ≤ limit
unfolding change_chosen chosen
change_chosen-le_limit p limit f s h =
    length-limited-le limit (sort_strings (keys (matching p s.deliveries))) h
