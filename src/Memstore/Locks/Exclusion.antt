-- ===== src/Memstore/Locks/Exclusion.antt =====
-- `lockRepo` of store/memstore/repos.go: who holds a lock, and for how long.
use sendplane.Common.{
  ◌+◌, ◌≤◌, ◌<◌, String, Bool, ◌≡◌, ◌≢◌, ◌⊎◌, inl, inr, true, false, List, [], ◌∷◌, none, some,
  arith, eq_iff, All, lookup, Option-cases, Bool-cases, insert, refl, lookup-insert, lookup-delete,
  lookup-adjust,
}
use sendplane.Store.Errors.{Result, ok, err}
use sendplane.Store.Time.{Time, Duration, truncate_time}
use sendplane.Memstore.Locks.{Lock, LockData, acquire, renew, release, blocks, holds, lock_row}

pub data LockOp : Type 0 where
  acquires renews : String → String → Duration → Time → LockOp
  frees : String → String → LockOp

abbrev tried : LockData → Result (LockData × Bool) → LockData
tried s (ok (s', won)) = s'
tried s (err e) = s

abbrev tried_unit : LockData → Result LockData → LockData
tried_unit s (ok s') = s'
tried_unit s (err e) = s

unfoldable pub lock_step : LockOp → LockData → LockData
lock_step (acquires key owner ttl now) s = tried s (acquire key owner ttl now s)
lock_step (renews key owner ttl now) s = tried s (renew key owner ttl now s)
lock_step (frees key owner) s = tried_unit s (release key owner s)

unfoldable pub lock_run : List LockOp → LockData → LockData
lock_run [] s = s
lock_run (op ∷ ops) s = lock_run ops (lock_step op s)

-- A call of another replica, for this lock before the end of the lease, or for any other lock.
abbrev pub IsRival : String → Lock → LockOp → Type 0
IsRival k l (acquires key owner ttl now) =
    (key ≢ k) ⊎ ((owner ≢ l.owner) × (truncate_time now < l.expires_at))
IsRival k l (renews key owner ttl now) = (key ≢ k) ⊎ (owner ≢ l.owner)
IsRival k l (frees key owner) = (key ≢ k) ⊎ (owner ≢ l.owner)

lock_step-IsRival :
    (op : LockOp) (s : LockData) (k : String) (l : Lock)
    → IsRival k l op
    → lookup k s.locks ≡ some l
    → lookup k (lock_step op s).locks ≡ some l
unfolding lock_step acquire renew release blocks holds
lock_step-IsRival (acquires key owner ttl now) s k l r at = ground (
  arith,
  eq_iff key k,
  eq_iff l.owner owner,
  lookup-insert key k (lock_row s.tenant key owner ttl (truncate_time now) (lookup key s.locks))
      s.locks,
)
lock_step-IsRival (renews key owner ttl now) s k l r at = ground (
  arith,
  eq_iff key k,
  eq_iff l.owner owner,
  lookup-adjust key k (λ cur. record cur { expires_at = truncate_time (truncate_time now + ttl) })
      s.locks,
)
lock_step-IsRival (frees key owner) s k l r at =
    ground (arith, eq_iff key k, eq_iff l.owner owner, lookup-delete key k s.locks)

-- A lease is its owner's alone until it ends: whatever the other replicas acquire, renew and
-- release until then, for this lock and for others, the row of the lock stays as it is.
pub lease_is_exclusive :
    (ops : List LockOp) (s : LockData) (k : String) (l : Lock)
    → lookup k s.locks ≡ some l
    → All (IsRival k l) ops
    → lookup k (lock_run ops s).locks ≡ some l
unfolding lock_run
lease_is_exclusive [] s k l at rs = at
lease_is_exclusive (op ∷ ops) s k l at rs =
    lease_is_exclusive ops (lock_step op s) k l (lock_step-IsRival op s k l rs.0 at) rs.1

-- The owner may take the lock: there is no row, or it is the owner's own, or its lease is over.
abbrev pub IsFree : String → Time → String → LockData → Type 0
IsFree key now owner s =
    (lookup key s.locks ≡ none)
    ⊎ ((l : Lock) × (lookup key s.locks ≡ some l)
        × ((l.owner ≡ owner) ⊎ (l.expires_at ≤ truncate_time now)))

acquire_refuses :
    (key owner : String) (ttl : Duration) (now : Time) (s : LockData)
    → s.closed ≡ false
    → blocks owner (truncate_time now) (lookup key s.locks) ≡ true
    → acquire key owner ttl now s ≡ ok (s, false)
unfolding acquire
acquire_refuses key owner ttl now s c b = ground arith

acquire_takes :
    (key owner : String) (ttl : Duration) (now : Time) (s : LockData)
    → s.closed ≡ false
    → blocks owner (truncate_time now) (lookup key s.locks) ≡ false
    → (s' : LockData) × (acquire key owner ttl now s ≡ ok (s', true))
      × ((l : Lock) × (lookup key s'.locks ≡ some l)
          × (l.owner ≡ owner)
          × (l.expires_at ≡ truncate_time (truncate_time now + ttl)))
unfolding acquire lock_row
acquire_takes key owner ttl now s c b =
    let l = lock_row s.tenant key owner ttl (truncate_time now) (lookup key s.locks) in
    (
      record s { locks = insert key l s.locks },
      ground arith,
      (l, ground (arith, eq_iff key key, lookup-insert key key l s.locks), refl, refl),
    )

free_of_blocks :
    (l : Lock) (owner : String) (now : Time)
    → blocks owner (truncate_time now) (some l) ≡ false
    → (l.owner ≡ owner) ⊎ (l.expires_at ≤ truncate_time now)
unfolding blocks
free_of_blocks l owner now b = ground (arith, eq_iff l.owner owner)

-- On an open store `Acquire` always answers: it refuses, and changes nothing, if another owner's
-- lease is not over; else the lock is free to the owner, and stands as the owner's until the ttl
-- has passed, whoever had it before.
acquire_cases :
    (key owner : String) (ttl : Duration) (now : Time) (s : LockData)
    → s.closed ≡ false
    → ((l : Lock) × (lookup key s.locks ≡ some l)
        × (l.owner ≢ owner)
        × (truncate_time now < l.expires_at)
        × (acquire key owner ttl now s ≡ ok (s, false)))
      ⊎ (IsFree key now owner s
          × ((s' : LockData) × (acquire key owner ttl now s ≡ ok (s', true))
              × ((l : Lock) × (lookup key s'.locks ≡ some l)
                  × (l.owner ≡ owner)
                  × (l.expires_at ≡ truncate_time (truncate_time now + ttl)))))
unfolding blocks
acquire_cases key owner ttl now s c = elim (Option-cases (lookup key s.locks)) [
  | inl e ↦ inr (inl e, acquire_takes key owner ttl now s c (ground arith))
  | inr (l, e) ↦ elim (Bool-cases (blocks owner (truncate_time now) (some l))) [
    | inl b ↦ inl (
      l,
      e,
      ground (arith, eq_iff l.owner owner),
      ground arith,
      acquire_refuses key owner ttl now s c (ground arith),
    )
    | inr b ↦ inr (
      inr (l, e, free_of_blocks l owner now b),
      acquire_takes key owner ttl now s c (ground arith),
    )
  ]
]
