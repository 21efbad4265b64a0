-- ===== src/Control/Campaign.antt =====
-- internal/control/campaign.go: the campaign verbs. Each reads the row, checks it, writes it back
-- under its version, and enqueues an event. `now` is the control clock's reading and `clock` the
-- provider's; `marshal` is the JSON encoder, on the payload of an event.
use sendplane.Common.{
  ℕ, ◌+◌, String, Bool, true, false, ◌&&◌, not, [], ◌∷◌, Option, none, some, str_eq, if◌then◌else◌,
  ltb, lookup,
}
use sendplane.Store.Enums.{CampaignStatus, campaign_status_eq, DeliveryStatus}
use sendplane.Store.Errors.{StoreError, Result, ok, err}
use sendplane.Store.Time.{Time, zero_time, is_zero, after, truncate_time}
use sendplane.Store.Campaign.{Campaign, OutboxStatus}
use sendplane.Memstore.{check}
use sendplane.Memstore.Deliveries.Bulk.{count_by_status}
use sendplane.Memstore.Tenant.{Tenant}
use sendplane.Memstore.Campaigns.{get_campaign, update_campaign}
use sendplane.Memstore.Outbox.{enqueue}

pub data ControlError : Type 0 where
  err_store : StoreError → ControlError
  err_invalid_transition err_no_recipients err_no_sender err_no_version : ControlError
  -- The error of a context that is done.
  err_context : ControlError

pub data Outcome (A : Type 0) : Type 0 where
  done : A → Outcome A
  refused : ControlError → Outcome A

infixl 5 ◌then◌
abbrev pub ◌then◌ : {A B : Type 0} → Outcome A → (A → Outcome B) → Outcome B
done a then f = f a
refused e then f = refused e

-- An error of the store is returned as it is.
abbrev pub lift : {A : Type 0} → Result A → Outcome A
lift (ok a) = done a
lift (err e) = refused (err_store e)

abbrev pub require : Bool → ControlError → Outcome (Unit {0})
require true e = done tt
require false e = refused e

-- campaignEventPayload
pub record CampaignPayload : Type 0 where
  pub campaign_id : String
  pub name : String
  pub status : CampaignStatus
  pub version_id : String
  pub sender_id : String
  pub occurred_at : Time
  pub by_status : Option (DeliveryStatus → ℕ)

-- splitCounts: the total, and the part in flight.
unfoldable pub split_counts : (DeliveryStatus → ℕ) → ℕ × ℕ
split_counts counts =
    let inflight =
      counts DeliveryStatus.pending
      + counts DeliveryStatus.queued
      + counts DeliveryStatus.leased
      + counts DeliveryStatus.deferred in
    (
      inflight
          + counts DeliveryStatus.sent
          + counts DeliveryStatus.failed
          + counts DeliveryStatus.bounced
          + counts DeliveryStatus.complained
          + counts DeliveryStatus.suppressed
          + counts DeliveryStatus.cancelled,
      inflight,
    )

-- resolveCampaignVersion: the campaign with the version bound.
unfoldable pub resolve_campaign_version : Tenant → Campaign → Outcome Campaign
resolve_campaign_version s cam =
    if not (str_eq cam.version_id "")
    then done cam
    else if str_eq cam.template_id ""
    then refused err_no_version
    else lift (check s.base) then λ u. elim (lookup cam.template_id s.templates) [
      | none ↦ refused err_no_version
      | some published ↦
          if str_eq published ""
          then refused err_no_version
          else done (record cam { version_id = published })
    ]

-- The row that a start writes: scheduled for a future time, and else running.
unfoldable pub started : Tenant → Time → Time → Campaign → Outcome Campaign
started s now at cam =
    if not (is_zero at) && after at now
    then done (record cam { status = CampaignStatus.scheduled; schedule_at = at })
    else resolve_campaign_version s cam then λ c.
        done (record c { status = CampaignStatus.running; started_at = now })

-- The preconditions of a start.
unfoldable pub startable : Tenant → Campaign → Outcome (Unit {0})
startable s cam =
    require (campaign_status_eq cam.status CampaignStatus.draft) err_invalid_transition then λ u.
    require (not (str_eq cam.version_id "" && str_eq cam.template_id "")) err_no_version then λ u.
    require (not (str_eq cam.sender_id "")) err_no_sender then λ u. lift (check s.base) then λ u.
    elim (lookup cam.sender_id s.senders) [
      | none ↦ refused err_no_sender
      | some row ↦ lift (count_by_status cam.id s.base) then λ counts.
          require (ltb 0 (split_counts counts).0) err_no_recipients
    ]

abbrev pub cancellable_campaign : CampaignStatus → Bool
cancellable_campaign CampaignStatus.completed = false
cancellable_campaign CampaignStatus.cancelled = false
cancellable_campaign _ = true

module _ (marshal : CampaignPayload → String) where
  -- enqueueCampaignEvent
  unfoldable pub enqueue_campaign_event :
      Campaign → String → Time → Option (DeliveryStatus → ℕ) → Time → Tenant → Outcome Tenant
  enqueue_campaign_event c typ now by_status clock s = lift (
      enqueue
        (record {
          id = "";
          tenant_id = "";
          kind = typ;
          payload = marshal (record {
            campaign_id = c.id;
            name = c.name;
            status = c.status;
            version_id = c.version_id;
            sender_id = c.sender_id;
            occurred_at = now;
            by_status = by_status;
          });
          status = OutboxStatus.pending;
          attempts = 0;
          next_attempt_at = now;
          lease_owner = "";
          lease_until = zero_time;
          last_error = "";
          created_at = now;
          delivered_at = zero_time;
        }
          ∷ [])
        clock s)

  -- The verbs after they have read the row. A scheduled start enqueues no event.
  unfoldable pub start_read : Time → Time → Time → Campaign → Tenant → Outcome Tenant
  start_read at now clock cam s = startable s cam then λ u.
      started s now (truncate_time at) cam then λ c. lift (update_campaign c clock s) then λ t.
      if campaign_status_eq c.status CampaignStatus.running
      then enqueue_campaign_event c "campaign.started" now none clock t
      else done t

  unfoldable pub pause_read : Time → Time → Campaign → Tenant → Outcome Tenant
  pause_read now clock cam s =
      require (campaign_status_eq cam.status CampaignStatus.running) err_invalid_transition
      then λ u.
          let c = record cam { status = CampaignStatus.paused } in
          lift (update_campaign c clock s) then λ t.
          enqueue_campaign_event c "campaign.paused" now none clock t

  unfoldable pub resume_read : Time → Time → Campaign → Tenant → Outcome Tenant
  resume_read now clock cam s =
      require (campaign_status_eq cam.status CampaignStatus.paused) err_invalid_transition then λ u.
      let c = record cam {
        status = CampaignStatus.running;
        started_at = if is_zero cam.started_at then now else cam.started_at;
      } in
      lift (update_campaign c clock s) then λ t.
      enqueue_campaign_event c "campaign.started" now none clock t

  unfoldable pub cancel_read : Time → Time → Campaign → Tenant → Outcome Tenant
  cancel_read now clock cam s =
      require (cancellable_campaign cam.status) err_invalid_transition then λ u.
      let c = record cam { status = CampaignStatus.cancelled; completed_at = now } in
      lift (update_campaign c clock s) then λ t.
      enqueue_campaign_event c "campaign.cancelled" now none clock t

  -- Control.StartCampaign
  unfoldable pub start_campaign : String → Time → Time → Time → Tenant → Outcome Tenant
  start_campaign id at now clock s =
      lift (get_campaign id s) then λ cam. start_read at now clock cam s

  -- Control.PauseCampaign
  unfoldable pub pause_campaign : String → Time → Time → Tenant → Outcome Tenant
  pause_campaign id now clock s = lift (get_campaign id s) then λ cam. pause_read now clock cam s

  -- Control.ResumeCampaign
  unfoldable pub resume_campaign : String → Time → Time → Tenant → Outcome Tenant
  resume_campaign id now clock s = lift (get_campaign id s) then λ cam. resume_read now clock cam s

  -- Control.CancelCampaign
  unfoldable pub cancel_campaign : String → Time → Time → Tenant → Outcome Tenant
  cancel_campaign id now clock s = lift (get_campaign id s) then λ cam. cancel_read now clock cam s
