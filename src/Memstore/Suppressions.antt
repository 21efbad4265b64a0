-- ===== src/Memstore/Suppressions.antt =====
-- store/suppression.go and `suppressionRepo` of store/memstore/repos.go: the addresses that are not
-- mailed, by their normalized form.
use sendplane.Common.{
  ℕ, String, Bool, false, ◌&&◌, ◌||◌, not, none, some, Map, str_eq, if◌then◌else◌, lookup, insert,
  delete, length,
}
use sendplane.Store.Errors.{Result, StoreError, ok, err, refuse_if, ◌>>◌}
use sendplane.Store.Time.{Time, truncate_time, is_zero, after}
use sendplane.Memstore.{TenantData, check}
use sendplane.Memstore.Aged.{drop_keys, aged_keys}

pub data SuppressionReason : Type 0 where
  hard_bounce complaint manual : SuppressionReason

pub record Suppression : Type 0 where
  pub tenant_id : String
  pub email_norm : String
  pub reason : SuppressionReason
  pub source_delivery_id : String
  pub created_at : Time
  pub expires_at : Time

-- The row as it is stored.
unfoldable pub listed_row : String → Time → Suppression → Suppression
listed_row tenant clock v = record v {
  tenant_id = tenant;
  created_at = truncate_time (if is_zero v.created_at then clock else v.created_at);
  expires_at = truncate_time v.expires_at;
}

unfoldable pub upsert : Suppression → Time → TenantData → Map Suppression → Result (Map Suppression)
upsert v clock s rows = do
  refuse_if (str_eq v.email_norm "") StoreError.err_invalid
  check s
  ok (insert v.email_norm (listed_row s.tenant clock v) rows)

-- An entry without an end does not expire.
unfoldable pub in_force : Time → Suppression → Bool
in_force now v = is_zero v.expires_at || after v.expires_at (truncate_time now)

unfoldable pub is_suppressed : String → Time → TenantData → Map Suppression → Result Bool
is_suppressed email_norm now s rows = do
  check s
  ok (elim (lookup email_norm rows) [ none ↦ false | some v ↦ in_force now v ])

-- The entry expired before the cutoff.
unfoldable pub has_expired : Time → Suppression → Bool
has_expired before v = not (is_zero v.expires_at) && not (after v.expires_at before)

unfoldable pub delete_expired :
    Time → ℕ → TenantData → Map Suppression → Result (Map Suppression × ℕ)
delete_expired before limit s rows = do
  check s
  let ks = aged_keys (has_expired (truncate_time before)) limit rows
  ok (drop_keys ks rows, length ks)

unfoldable pub remove : String → TenantData → Map Suppression → Result (Map Suppression)
remove email_norm s rows = do
  check s
  elim (lookup email_norm rows) [
    | none ↦ err StoreError.err_not_found
    | some v ↦ ok (delete email_norm rows)
  ]
