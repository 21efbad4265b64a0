-- ===== src/Control/Maintenance.antt =====
-- internal/control/maintenance.go: the reaper of expired leases, and the retention.
use sendplane.Common.{
  ℕ, zero, suc, ◌+◌, ◌-◌, ◌*◌, ℤ, pos, negsuc, String, Bool, true, false, not, [], ◌∷◌, Option,
  none, some, Map, ltb, if◌then◌else◌,
}
use sendplane.Store.Enums.{CampaignStatus}
use sendplane.Store.Errors.{Result, ok, err}
use sendplane.Store.Time.{Time, is_zero, before, hour}
use sendplane.Store.Campaign.{Campaign}
use sendplane.Memstore.{TenantData}
use sendplane.Memstore.Tenant.{Tenant}
use sendplane.Memstore.Deliveries.Bulk.{delete_before, release_expired_leases}
use sendplane.Memstore.Aged.{TrackingEvent, delete_tracking_before}
use sendplane.Memstore.Suppressions.{Suppression, delete_expired}
use sendplane.Memstore.Outbox.{delete_events_before}
use sendplane.Bounce.Types.{BounceEvent, delete_bounces_before}
use sendplane.Control.Campaign.{ControlError, err_store, err_context}
use sendplane.Control.Walk.{WalkEnd, finished, out_of_fuel, failed, Worked, each_campaign}

-- leaseReaper.Tick
unfoldable pub lease_reaper_tick : ℕ → Time → TenantData → TenantData × Option ControlError
lease_reaper_tick limit now s = elim (release_expired_leases now limit s) [
  | err e ↦ (s, some (err_store e))
  | ok r ↦ (r.0, none)
]

-- What a chunked deletion leaves, the number of rows it deleted, and its error.
abbrev pub Chunked : Type 0 → Type 0
Chunked S = S × ℕ × Option ControlError

-- `ctx_done i` tells whether the context is done before the chunk `i`; `del` is one DeleteBefore.
module _ {S : Type 0} (ctx_done : ℕ → Bool) (del : S → Result (S × ℕ)) (chunk : ℕ) where
  -- The loop of chunkedDelete, from the chunk `i` and the total so far.
  unfoldable pub delete_chunks : ℕ → ℕ → ℕ → S → Chunked S
  delete_chunks zero i total s = (s, total, none)
  delete_chunks (suc left) i total s = elim (ctx_done i) [
    | true ↦ (s, total, some err_context)
    | false ↦ elim (del s) [
      | err e ↦ (s, total, some (err_store e))
      | ok r ↦ elim (ltb r.1 chunk) [
        | true ↦ (r.0, total + r.1, none)
        | false ↦ delete_chunks left (suc i) (total + r.1) r.0
      ]
    ]
  ]

  -- chunkedDelete
  unfoldable pub chunked_delete : ℕ → S → Chunked S
  chunked_delete max_chunks s = delete_chunks max_chunks 0 0 s

abbrev pub on_base : Tenant → Result (TenantData × ℕ) → Result (Tenant × ℕ)
on_base t (err e) = err e
on_base t (ok r) = ok (record t { base = r.0 }, r.1)

pub record RetentionConfig : Type 0 where
  pub campaign_page : ℕ
  pub retention_chunk : ℕ
  pub retention_max_chunks : ℕ

-- When a campaign was over.
abbrev pub over_at : Campaign → Time
over_at c = if is_zero c.completed_at then c.updated_at else c.completed_at

-- The rows that the retention works on.
pub record RetainedRows : Type 0 where
  pub tenant : Tenant
  pub suppressions : Map Suppression
  pub tracking : Map TrackingEvent
  pub bounces : Map BounceEvent

abbrev pub day : ℕ
day = 24 * hour

-- `page_done` tells whether the context is done before a page of campaigns, and `chunk_done` before
-- a chunk, by the campaign or the kind of rows that it is of.
module _ (cfg : RetentionConfig) (page_done : ℕ → Bool) (chunk_done : String → ℕ → Bool) where
  unfoldable pub delete_campaign_rows : Time → Campaign → Tenant → Worked
  delete_campaign_rows cutoff c t =
      if not (before (over_at c) cutoff)
      then (t, none)
      else (let r =
            chunked_delete (chunk_done c.id)
              (λ u. on_base u (delete_before c.id cutoff cfg.retention_chunk u.base))
              cfg.retention_chunk cfg.retention_max_chunks t in
          (r.0, r.2))

  -- retention.deleteCampaignDeliveries
  unfoldable pub delete_campaign_deliveries : ℕ → Time → Tenant → Tenant × WalkEnd
  delete_campaign_deliveries pages cutoff t =
      each_campaign (delete_campaign_rows cutoff) page_done
        (CampaignStatus.completed ∷ CampaignStatus.cancelled ∷ []) cfg.campaign_page pages 0 "" t

  -- retention.deleteExpiredSuppressions
  unfoldable pub delete_expired_suppressions :
      Time → TenantData → Map Suppression → Chunked (Map Suppression)
  delete_expired_suppressions now s rows =
      chunked_delete (chunk_done "suppressions") (delete_expired now cfg.retention_chunk s)
        cfg.retention_chunk cfg.retention_max_chunks rows

  unfoldable pub delete_tracking :
      Time → TenantData → Map TrackingEvent → Chunked (Map TrackingEvent)
  delete_tracking cutoff s rows =
      chunked_delete (chunk_done "tracking events")
        (delete_tracking_before cutoff cfg.retention_chunk s) cfg.retention_chunk
        cfg.retention_max_chunks rows

  unfoldable pub delete_bounces : Time → TenantData → Map BounceEvent → Chunked (Map BounceEvent)
  delete_bounces cutoff s rows =
      chunked_delete (chunk_done "bounce events")
        (delete_bounces_before cutoff cfg.retention_chunk s) cfg.retention_chunk
        cfg.retention_max_chunks rows

  unfoldable pub delete_outbox : Time → Tenant → Chunked Tenant
  delete_outbox cutoff t =
      chunked_delete (chunk_done "outbox events") (delete_events_before cutoff cfg.retention_chunk)
        cfg.retention_chunk cfg.retention_max_chunks t

  -- The rest of a step of the tick, unless there was an error.
  abbrev or_fail :
      Option ControlError → RetainedRows → RetainedRows × WalkEnd → RetainedRows × WalkEnd
  or_fail none s rest = rest
  or_fail (some e) s rest = (s, failed e)

  -- retention.deleteTenantWide
  unfoldable pub delete_tenant_wide : Time → RetainedRows → RetainedRows × WalkEnd
  delete_tenant_wide cutoff s =
      let tr = delete_tracking cutoff s.tenant.base s.tracking in
      let s1 : RetainedRows = record s { tracking = tr.0 } in
      let bo = delete_bounces cutoff s1.tenant.base s1.bounces in
      let s2 : RetainedRows = record s1 { bounces = bo.0 } in
      let ou = delete_outbox cutoff s2.tenant in
      let s3 : RetainedRows = record s2 { tenant = ou.0 } in
      or_fail tr.2 s1 (or_fail bo.2 s2 (or_fail ou.2 s3 (s3, finished)))

  -- What follows the deliveries of the campaigns.
  unfoldable pub delete_others : Time → Time → RetainedRows → RetainedRows × WalkEnd
  delete_others now cutoff s =
      let su = delete_expired_suppressions now s.tenant.base s.suppressions in
      let s1 : RetainedRows = record s { suppressions = su.0 } in
      or_fail su.2 s1 (delete_tenant_wide cutoff s1)

  unfoldable pub retain_from : ℕ → Time → Time → RetainedRows → RetainedRows × WalkEnd
  retain_from pages now cutoff s =
      let w = delete_campaign_deliveries pages cutoff s.tenant in
      let s1 : RetainedRows = record s { tenant = w.0 } in
      elim w.1 [
        | finished ↦ delete_others now cutoff s1
        | out_of_fuel ↦ (s1, w.1)
        | failed e ↦ (s1, w.1)
      ]

  -- retention.Tick, with the RetentionDays of the tenant's settings, if they could be read.
  unfoldable pub retention_tick : Result ℤ → ℕ → Time → RetainedRows → RetainedRows × WalkEnd
  retention_tick (err e) pages now s = (s, failed (err_store e))
  retention_tick (ok (negsuc n)) pages now s = (s, finished)
  retention_tick (ok (pos zero)) pages now s = (s, finished)
  retention_tick (ok (pos (suc n))) pages now s = retain_from pages now (now - suc n * day) s
