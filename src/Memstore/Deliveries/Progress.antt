-- ===== src/Memstore/Deliveries/Progress.antt =====
-- The bulk operations make progress: a call changes as many rows as it reports, and those rows no
-- longer match, so that calls in chunks come to an end with nothing left to do.
use Prim.Native.Nat.{min}
use sendplane.Common.{
  ltb, length-sort, length-take, sort_strings, str_lt, limited, ℕ, suc, ◌+◌, ◌≤◌, String, ◌≡◌, refl,
  ap, ◌∙◌, List, [], ◌∷◌, Bool, true, false, arith, str_eq, eq_iff, if◌then◌else◌, Map, IsMap, keys,
  lookup, matching, adjust, adjust_all, lookup-adjust, contains, contains-count, count, length,
  keys-adjust,
}
use sendplane.Store.Delivery.{Delivery}
use sendplane.Memstore.{TenantData}
use sendplane.Memstore.Deliveries.Bulk.{chosen, change_chosen}
use sendplane.Memstore.Deliveries.Chosen.{row_passes, passes_of_chosen, count-chosen-le_one}

-- The number of rows that match.
abbrev pub remaining : (String → Delivery → Bool) → Map Delivery → ℕ
remaining p rows = length (matching p rows)

module _ (p : String → Delivery → Bool) (f : Delivery → Delivery)
    (done : (j : String) (d : Delivery) → p j (f d) ≡ false) where
  remaining-adjust :
      (k : String) (rows : Map Delivery)
      → count k (keys rows) ≤ 1
      → row_passes p rows k ≡ true
      → suc (remaining p (adjust k f rows)) ≡ remaining p rows
  unfolding matching adjust lookup
  remaining-adjust k [] m h = absurd (ground arith)
  remaining-adjust k ((j, d) ∷ rows) m h =
      ground (arith, eq_iff j k, done j d, remaining-adjust k rows)

  row_passes-adjust :
      (j k : String) (rows : Map Delivery)
      → str_eq j k ≡ false
      → row_passes p (adjust j f rows) k ≡ row_passes p rows k
  row_passes-adjust j k rows n = ground (arith, lookup-adjust j k f rows)

  -- Rows that all match, each named once, are as many fewer afterwards.
  remaining-adjust_all :
      (ks : List String) (rows : Map Delivery)
      → IsMap rows
      → ((k : String) → count k ks ≤ 1)
      → ((k : String) → contains ks k ≡ true → row_passes p rows k ≡ true)
      → remaining p (adjust_all ks f rows) + length ks ≡ remaining p rows
  unfolding adjust_all
  remaining-adjust_all [] rows m once h = omega arith
  remaining-adjust_all (k ∷ ks) rows m once h = omega (
    arith,
    remaining-adjust k rows (m k) (h k (ground (arith, eq_iff k k))),
    remaining-adjust_all ks (adjust k f rows)
        (λ j. omega (arith, m j, ap (count j) (keys-adjust k f rows))) (λ j. omega (arith, once j))
        (λ j c.
          row_passes-adjust k j rows (ground (arith, once j, contains-count ks j))
          ∙ h j (ground arith)),
  )

  -- A bulk operation takes off exactly the number of rows that it reports.
  pub remaining-change_chosen :
      (limit : ℕ) (s : TenantData)
      → IsMap s.deliveries
      → remaining p (change_chosen p limit f s).0.deliveries + (change_chosen p limit f s).1
        ≡ remaining p s.deliveries
  unfolding change_chosen
  remaining-change_chosen limit s m =
      remaining-adjust_all (chosen p limit s.deliveries) s.deliveries m
        (count-chosen-le_one p limit s.deliveries m) (passes_of_chosen p limit s.deliveries m)

length-keys : (rows : Map Delivery) → length (keys rows) ≡ length rows
length-keys [] = refl
length-keys ((k, d) ∷ rows) = ap suc (length-keys rows)

-- A bulk operation reports the matching rows, up to a positive limit.
pub change_chosen-count :
    (p : String → Delivery → Bool) (limit : ℕ) (f : Delivery → Delivery) (s : TenantData)
    → (change_chosen p limit f s).1
      ≡ (if ltb 0 limit then min limit (remaining p s.deliveries) else remaining p s.deliveries)
unfolding change_chosen chosen limited
change_chosen-count p limit f s = ground (
  arith,
  length-keys (matching p s.deliveries),
  length-sort str_lt (keys (matching p s.deliveries)),
  length-take limit (sort_strings (keys (matching p s.deliveries))),
)
