-- ===== src/Tests/Locks.antt =====
-- The lock of the leader election, with two replicas.
use sendplane.Common.{String, ◌≡◌, refl, ◌≢◌, inr, false, [], ◌∷◌, some, arith, eq_iff, lookup}
use sendplane.Store.Time.{truncate_time}
use sendplane.Memstore.Locks.{Lock, LockData}
use sendplane.Memstore.Locks.Exclusion.{acquires, renews, frees, lock_run, lease_is_exclusive}

abbrev leader : Lock
leader = record {
  tenant_id = "sys";
  name = "control-leader";
  owner = "r1";
  acquired_at = 1_000_000;
  expires_at = 9_000_000;
}

abbrev led : LockData
led = record { closed = false; tenant = "sys"; locks = ("control-leader", leader) ∷ [] }

other_replica : ◌≢◌ {A = String} "r2" "r1"
other_replica = ground (arith, eq_iff "r2" "r1")

lease_is_exclusive_example :
    lookup "control-leader"
      (lock_run
        (acquires "control-leader" "r2" 8_000_000 5_000_000
          ∷ renews "control-leader" "r2" 8_000_000 6_000_000
          ∷ frees "control-leader" "r2"
          ∷ [])
        led).locks
    ≡ some leader
unfolding lookup truncate_time
lease_is_exclusive_example =
    lease_is_exclusive
      (acquires "control-leader" "r2" 8_000_000 5_000_000
        ∷ renews "control-leader" "r2" 8_000_000 6_000_000
        ∷ frees "control-leader" "r2"
        ∷ [])
      led "control-leader" leader refl
      (inr (other_replica, omega arith), (inr other_replica, (inr other_replica, tt)))
