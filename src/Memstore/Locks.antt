-- ===== src/Memstore/Locks.antt =====
-- store/lock.go and `lockRepo` of store/memstore/repos.go: the named leases behind the leader
-- election of the control plane.
pub mod Exclusion
use sendplane.Common.{
  ◌+◌, String, Bool, true, false, ◌&&◌, ◌||◌, not, Option, none, some, Map, str_eq, if◌then◌else◌,
  lookup, insert, delete, adjust,
}
use sendplane.Store.Errors.{Result, StoreError, ok, err, refuse_if, ◌>>◌}
use sendplane.Store.Time.{Time, Duration, truncate_time, after}

pub record Lock : Type 0 where
  pub tenant_id : String
  pub name : String
  pub owner : String
  pub acquired_at : Time
  pub expires_at : Time

-- The part of the tenant's data that the locks are in.
pub record LockData : Type 0 where
  pub closed : Bool
  pub tenant : String
  pub locks : Map Lock

-- Another owner's lease that is not over.
unfoldable pub blocks : String → Time → Option Lock → Bool
blocks owner now none = false
blocks owner now (some cur) = not (str_eq cur.owner owner) && after cur.expires_at now

-- The time since when the owner has the lock: a renewal keeps it.
unfoldable pub since : String → Time → Option Lock → Time
since owner now none = now
since owner now (some cur) = if str_eq cur.owner owner then cur.acquired_at else now

unfoldable pub lock_row : String → String → String → Duration → Time → Option Lock → Lock
lock_row tenant key owner ttl now cur = record {
  tenant_id = tenant;
  name = key;
  owner = owner;
  acquired_at = since owner now cur;
  expires_at = truncate_time (now + ttl);
}

unfoldable pub acquire : String → String → Duration → Time → LockData → Result (LockData × Bool)
acquire key owner ttl now s = do
  refuse_if s.closed StoreError.err_closed
  if blocks owner (truncate_time now) (lookup key s.locks)
      then ok (s, false)
      else ok (
        record s {
          locks =
              insert key (lock_row s.tenant key owner ttl (truncate_time now) (lookup key s.locks))
                s.locks;
        },
        true,
      )

-- The lease is the owner's, and not over.
unfoldable pub holds : String → Time → Option Lock → Bool
holds owner now none = false
holds owner now (some cur) = str_eq cur.owner owner && after cur.expires_at now

unfoldable pub renew : String → String → Duration → Time → LockData → Result (LockData × Bool)
renew key owner ttl now s = do
  refuse_if s.closed StoreError.err_closed
  if not (holds owner (truncate_time now) (lookup key s.locks))
      then ok (s, false)
      else ok (
        record s {
          locks =
              adjust key
                (λ cur. record cur { expires_at = truncate_time (truncate_time now + ttl) })
                s.locks;
        },
        true,
      )

abbrev owned : String → Option Lock → Bool
owned owner none = false
owned owner (some cur) = str_eq cur.owner owner

unfoldable pub release : String → String → LockData → Result LockData
release key owner s = do
  refuse_if s.closed StoreError.err_closed
  ok (if owned owner (lookup key s.locks) then record s { locks = delete key s.locks } else s)
