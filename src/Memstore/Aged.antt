-- ===== src/Memstore/Aged.antt =====
-- store/memstore/repos.go: `deleteBefore`, the retention of the rows that have an age, at the tracking
-- events of store/tracking.go.
use sendplane.Common.{
  ℕ, ℤ, String, Bool, List, [], ◌∷◌, Map, delete, keys, matching, sort_strings, limited, length,
}
use sendplane.Store.Errors.{Result, ok, ◌>>◌}
use sendplane.Store.Time.{Time, before, truncate_time}
use sendplane.Memstore.{TenantData, check}

-- `opened` and `clicked` are TrackingOpen and TrackingClick.
pub data TrackingKind : Type 0 where
  opened clicked unsubscribe_clicked unsubscribed : TrackingKind

pub record TrackingEvent : Type 0 where
  pub id : String
  pub tenant_id : String
  pub delivery_id : String
  pub campaign_id : String
  pub kind : TrackingKind
  pub url : String
  pub link_no : ℤ
  pub user_agent : String
  pub ip_hash : String
  pub suspected_bot : Bool
  pub created_at : Time

module _ {V : Type 0} where
  -- `delete` of each key.
  unfoldable pub drop_keys : List String → Map V → Map V
  drop_keys [] rows = rows
  drop_keys (k ∷ ks) rows = drop_keys ks (delete k rows)

  -- The keys of the rows that pass, in their order, up to a limit.
  unfoldable pub aged_keys : (V → Bool) → ℕ → Map V → List String
  aged_keys is_old limit rows =
      limited limit (sort_strings (keys (matching (λ k v. is_old v) rows)))

  -- deleteBefore, without a `keep`.
  unfoldable pub delete_aged : (V → Time) → Time → ℕ → Map V → Map V × ℕ
  delete_aged created cutoff limit rows =
      let ids = aged_keys (λ v. before (created v) cutoff) limit rows in
      (drop_keys ids rows, length ids)

-- trackingRepo.DeleteBefore
unfoldable pub delete_tracking_before :
    Time → ℕ → TenantData → Map TrackingEvent → Result (Map TrackingEvent × ℕ)
delete_tracking_before cutoff limit s rows = do
  check s
  ok (delete_aged (λ e. e.created_at) (truncate_time cutoff) limit rows)
