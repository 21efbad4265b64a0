-- ===== src/Control/Loops.antt =====
-- internal/control/campaign_loops.go: what the scheduler, the finalizer and the canceller do with one
-- campaign of the listing that they walk. The row `c` is the one that was listed; it may be older
-- than the stored row, and then the version refuses the update, which the loops ignore.
use sendplane.Common.{
  ℕ, ◌+◌, ◌-◌, ◌*◌, String, Bool, true, false, ◌&&◌, ◌||◌, not, List, [], ◌∷◌, Option, none, some,
  if◌then◌else◌, ltb, ◌==◌, Map, lookup, insert, delete,
}
use sendplane.Store.Enums.{CampaignStatus, DeliveryStatus}
use sendplane.Store.Errors.{StoreError, Result, ok, err}
use sendplane.Store.Time.{Time, Duration, is_zero, after, before, hour, minute}
use sendplane.Store.Campaign.{Campaign, CampaignStats}
use sendplane.Memstore.Deliveries.Bulk.{count_by_status, bulk_transition}
use sendplane.Memstore.Tenant.{Tenant}
use sendplane.Memstore.Campaigns.{update_campaign, update_stats}
use sendplane.Control.Campaign.{
  Outcome, done, refused, err_store, ◌then◌, lift, CampaignPayload, enqueue_campaign_event,
  split_counts, resolve_campaign_version,
}

-- raced
abbrev pub raced : StoreError → Bool
raced StoreError.err_conflict = true
raced StoreError.err_not_found = true
raced _ = false

-- An update whose race is not an error: the row before it, or what follows it.
abbrev pub unless_raced : {A : Type 0} → Result Tenant → A → (Tenant → Outcome A) → Outcome A
unless_raced (ok t) before_it next = next t
unless_raced (err e) before_it next = if raced e then done before_it else refused (err_store e)

-- A failed enqueue is only logged.
abbrev pub logged : Tenant → Outcome Tenant → Tenant
logged t (done u) = u
logged t (refused e) = t

-- The counts of unique interactions that the tracking repository returns, if it does.
pub record UniqueCounts : Type 0 where
  pub unique_opens : ℕ
  pub unique_clicks : ℕ
  pub unsubscribed : ℕ
  pub unsubscribe_clicked : ℕ

pub record FinalizerConfig : Type 0 where
  pub large_campaign_rows : ℕ
  pub large_campaign_every : ℕ

abbrev pub stats_of : (DeliveryStatus → ℕ) → Option UniqueCounts → Time → CampaignStats
stats_of counts none now = record {
  by_status = counts;
  unique_opens = 0;
  unique_clicks = 0;
  unsubscribed = 0;
  unsubscribe_clicked = 0;
  computed_at = now;
}
stats_of counts (some tc) now = record {
  by_status = counts;
  unique_opens = tc.unique_opens;
  unique_clicks = tc.unique_clicks;
  unsubscribed = tc.unsubscribed;
  unsubscribe_clicked = tc.unsubscribe_clicked;
  computed_at = now;
}

abbrev pub skips_of : String → Map ℕ → ℕ
skips_of id skips = elim (lookup id skips) [ none ↦ 0 | some n ↦ n ]

module _ (marshal : CampaignPayload → String) where
  -- scheduler.Tick, on one campaign.
  unfoldable pub schedule_one : Campaign → Time → Time → Tenant → Outcome Tenant
  schedule_one c now clock s =
      if after c.schedule_at now then done s else elim (resolve_campaign_version s c) [
        | refused e ↦ done s
        | done bound ↦
            let started = record bound {
              status = CampaignStatus.running;
              started_at = if is_zero bound.started_at then now else bound.started_at;
            } in
            unless_raced (update_campaign started clock s) s (λ t. done (
              logged t
                (enqueue_campaign_event marshal started "campaign.started" now none clock t)))
      ]

  -- The end of the finalizer's work on a campaign: completion.
  unfoldable pub complete_campaign :
      Campaign → CampaignStats → Time → Time → Map ℕ → Tenant → Outcome (Map ℕ × Tenant)
  complete_campaign c stats now clock skips s =
      let finished = record c {
        stats = stats;
        status = CampaignStatus.completed;
        completed_at = now;
      } in
      unless_raced (update_campaign finished clock s) (skips, s)
        (λ t. done (
          delete c.id skips,
          logged t (
              enqueue_campaign_event marshal finished "campaign.completed" now
                (some stats.by_status) clock t),
        ))

  -- finalizer.tickRunning, on one campaign, with the ticks to skip of each campaign.
  unfoldable pub finalize_one :
      FinalizerConfig
      → Option UniqueCounts
      → Campaign
      → Time
      → Time
      → Map ℕ
      → Tenant
      → Outcome (Map ℕ × Tenant)
  finalize_one cfg unique c now clock skips s =
      if ltb 0 (skips_of c.id skips)
      then done (insert c.id (skips_of c.id skips - 1) skips, s)
      else lift (count_by_status c.id s.base) then λ counts.
          let split = split_counts counts in
          let kept =
            if ltb cfg.large_campaign_rows split.0 && ltb 1 cfg.large_campaign_every
            then insert c.id (cfg.large_campaign_every - 1) skips
            else delete c.id skips in
          let stats = stats_of counts unique now in
          unless_raced (update_stats c.id stats clock s) (kept, s)
            (λ t.
              if split.0 == 0 || ltb 0 split.1
              then done (kept, t)
              else complete_campaign c stats now clock kept t)

abbrev pub cancellable_statuses : List DeliveryStatus
cancellable_statuses = DeliveryStatus.pending ∷ DeliveryStatus.queued ∷ DeliveryStatus.deferred ∷ []

-- canceller.Tick, on one campaign.
unfoldable pub cancel_one : ℕ → Campaign → Time → Tenant → Outcome Tenant
cancel_one chunk cam clock s =
    lift (bulk_transition cam.id cancellable_statuses DeliveryStatus.cancelled chunk clock s.base)
    then λ r. done (record s { base = r.0 })

abbrev stats_refresh_hot : Duration
stats_refresh_hot = hour

abbrev stats_refresh_cold : Duration
stats_refresh_cold = 10 * minute

-- statsRefreshDue. A finish in the future has a negative age, which is not above a window.
unfoldable pub stats_refresh_due : Campaign → Time → Duration → Bool
stats_refresh_due c now window =
    let finished = if is_zero c.completed_at then c.updated_at else c.completed_at in
    let last = c.stats.computed_at in
    if is_zero finished
    then false
    else if ltb window (now - finished)
    then false
    else if not (ltb stats_refresh_hot (now - finished))
    then true
    else is_zero last || not (before now (last + stats_refresh_cold))
