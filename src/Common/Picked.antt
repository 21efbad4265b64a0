-- ===== src/Common/Picked.antt =====
-- The keys that a bulk operation picks: those of the rows that pass, sorted, up to a limit.
use Prim.Native.Nat.{ℕ, ◌≤◌}
use Prim.Native.String.{String}
use mathlib.Core.Path.{◌≡◌}
use mathlib.Core.Bool.{Bool, true, false}
use mathlib.Core.Option.{none, some}
use mathlib.Core.List.{List}
use native.Mathlib.Omega.{arith}
use sendplane.Common.Tests.{str_lt}
use sendplane.Common.Lists.{count, contains, contains-count, limited, count-limited-le}
use sendplane.Common.Maps.{Map, keys, lookup, matching, contains-matching, count-keys-matching-le}
use sendplane.Common.Sort.{sort_strings, count-sort}

module _ {ℓ} {V : Type ℓ} (p : String → V → Bool) (limit : ℕ) (m : Map V) where
  abbrev pub picked : List String
  picked = limited limit (sort_strings (keys (matching p m)))

  count-picked-le : (j : String) → count j picked ≤ count j (keys (matching p m))
  count-picked-le j = omega (
    arith,
    count-limited-le j limit (sort_strings (keys (matching p m))),
    count-sort str_lt j (keys (matching p m)),
  )

  pub count-picked-le_one : (j : String) → count j (keys m) ≤ 1 → count j picked ≤ 1
  count-picked-le_one j once = omega (arith, count-picked-le j, count-keys-matching-le p j m, once)

  pub passes_of_picked :
      (j : String)
      → count j (keys m) ≤ 1
      → contains picked j ≡ true
      → elim (lookup j m) [ none ↦ false | some v ↦ p j v ] ≡ true
  passes_of_picked j once h = ground (
    arith,
    contains-count picked j,
    contains-count (keys (matching p m)) j,
    count-picked-le j,
    contains-matching p j m once,
  )
