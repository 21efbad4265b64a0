-- ===== src/Control/Retry.antt =====
-- internal/control/campaign.go: `RetryCampaign`, which requeues deliveries in chunks.
use sendplane.Common.{
  ℕ, zero, suc, ◌+◌, String, Bool, true, false, ◌||◌, not, [], ◌∷◌, Option, none, some,
  if◌then◌else◌, ltb, ◌==◌, length,
}
use sendplane.Store.Enums.{CampaignStatus, campaign_status_eq, DeliveryStatus}
use sendplane.Store.Errors.{Result, ok, err, ◌>>=◌}
use sendplane.Store.Time.{Time, zero_time, is_zero}
use sendplane.Store.Delivery.{RetryFilter}
use sendplane.Store.Campaign.{Campaign}
use sendplane.Memstore.{TenantData}
use sendplane.Memstore.Deliveries.Bulk.{requeue}
use sendplane.Memstore.Tenant.{Tenant}
use sendplane.Memstore.Campaigns.{get_campaign, update_campaign}
use sendplane.Control.Campaign.{
  done, refused, ControlError, err_store, err_invalid_transition, ◌then◌, lift, CampaignPayload,
  enqueue_campaign_event,
}

abbrev pub max_retry_chunks : ℕ
max_retry_chunks = 1000

-- The loop: at most `i` chunks, and none after one that was not full.
unfoldable pub retry_chunks : ℕ → RetryFilter → ℕ → ℕ → TenantData → Result (TenantData × ℕ)
retry_chunks zero f chunk total s = ok (s, total)
retry_chunks (suc i) f chunk total s = requeue f chunk s >>= λ r. elim (ltb r.1 chunk) [
  | true ↦ ok (r.0, total + r.1)
  | false ↦ retry_chunks i f chunk (total + r.1) r.0
]

unfoldable pub retryable_campaign : CampaignStatus → Bool
retryable_campaign CampaignStatus.running = true
retryable_campaign CampaignStatus.paused = true
retryable_campaign CampaignStatus.completed = true
retryable_campaign _ = false

-- The filter with its campaign, and the defaults for a missing time and missing statuses.
unfoldable pub completed_filter : String → Time → RetryFilter → RetryFilter
completed_filter id now f = record f {
  campaign_id = id;
  now = if is_zero f.now then now else f.now;
  statuses = if length f.statuses == 0 then DeliveryStatus.failed ∷ [] else f.statuses;
}

-- A selection that is there and empty.
abbrev pub selects_nothing : RetryFilter → Bool
selects_nothing f = elim f.delivery_ids [ none ↦ false | some ids ↦ length ids == 0 ]

-- What a retry returns, an error with the rows that it had requeued before.
pub record Retried : Type 0 where
  pub tenant : Tenant
  pub total : ℕ
  pub error : Option ControlError

-- A completed campaign with requeued rows goes back to running.
reopened : (CampaignPayload → String) → Campaign → Time → Time → ℕ → Tenant → Retried
reopened marshal cam now clock total t =
    let c = record cam { status = CampaignStatus.running; completed_at = zero_time } in
    elim (lift (update_campaign c clock t) then λ u.
    enqueue_campaign_event marshal c "campaign.started" now none clock u) [
      | done u ↦ record { tenant = u; total = total; error = none }
      | refused e ↦ record { tenant = t; total = total; error = some e }
    ]

-- `RetryCampaign` after it has read the row.
unfoldable pub retry_read :
    (CampaignPayload → String) → ℕ → RetryFilter → Time → Time → Campaign → Tenant → Retried
unfolding reopened
retry_read marshal chunk filter now clock cam s =
    let f = completed_filter cam.id now filter in
    if not (retryable_campaign cam.status)
    then record { tenant = s; total = 0; error = some err_invalid_transition }
    else if selects_nothing f
    then record { tenant = s; total = 0; error = none }
    else elim (retry_chunks max_retry_chunks f chunk 0 s.base) [
      | err e ↦ record { tenant = s; total = 0; error = some (err_store e) }
      | ok r ↦
          let t = record s { base = r.0 } in
          if r.1 == 0 || not (campaign_status_eq cam.status CampaignStatus.completed)
          then record { tenant = t; total = r.1; error = none }
          else reopened marshal cam now clock r.1 t
    ]

-- Control.RetryCampaign
unfoldable pub retry_campaign :
    (CampaignPayload → String) → ℕ → String → RetryFilter → Time → Time → Tenant → Retried
retry_campaign marshal chunk id filter now clock s = elim (get_campaign id s) [
  | err e ↦ record { tenant = s; total = 0; error = some (err_store e) }
  | ok cam ↦ retry_read marshal chunk filter now clock cam s
]
