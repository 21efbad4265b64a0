-- ===== src/Tests/Campaigns.antt =====
-- The control plane on a tenant with one campaign.
use sendplane.Common.{
  suc, ◌+◌, String, ◌≡◌, refl, false, [], ◌∷◌, none, some, arith, lookup, adjust, adjust_all,
  matching, sort, insert_sorted, limited, length, IsMap, contains, eq_iff,
}
use sendplane.Store.Enums.{DeliveryStatus, CampaignStatus}
use sendplane.Store.Time.{Time, truncate_time}
use sendplane.Store.Delivery.{Delivery, RetryFilter}
use sendplane.Store.Campaign.{Campaign, OutboxEvent, OutboxStatus}
use sendplane.Memstore.{TenantData}
use sendplane.Memstore.Tenant.{Tenant}
use sendplane.Memstore.Campaigns.{update_campaign, updated_campaign, truncate_campaign}
use sendplane.Memstore.Outbox.{
  enqueue, enqueue_all, enqueue_one, claim_pending, claimed_events, claimable_event, leased_event,
}
use sendplane.Memstore.Events.{event_claim_exclusive}
use sendplane.Control.Campaign.{CampaignPayload, cancel_read, enqueue_campaign_event}
use sendplane.Control.Loops.{finalize_one}
use sendplane.Control.Evolution.{Evolves}
use sendplane.Control.Interleaving.{
  pauses, cancels, System, Step, step_read, step_act, here, further, act, interleaving_moves,
  cancelled_forever,
}
use sendplane.Control.Completion.{
  Leaves, verdict, rows_of_campaign, open_rows, finalize_completes_iff,
}
use sendplane.Control.Dispatch.{DispatchConfig}
use sendplane.Control.DeadLetter.{failed_dispatches, IsTried, dead_letter_iff}
use sendplane.Tests.Data.{row, loaded}

abbrev pub marshal : CampaignPayload → String
marshal p = p.campaign_id

abbrev pub campaign : CampaignStatus → Campaign
campaign status = record {
  id = "c1";
  tenant_id = "t1";
  name = "news";
  template_id = "";
  version_id = "v1";
  sender_id = "s1";
  default_locale = "";
  vars = "{}";
  tenant_vars = "{}";
  status = status;
  schedule_at = 0;
  started_at = 1_000_000;
  completed_at = 0;
  stats = record {
    by_status = λ st. 0;
    unique_opens = 0;
    unique_clicks = 0;
    unsubscribed = 0;
    unsubscribe_clicked = 0;
    computed_at = 0;
  };
  version = 3;
  created_at = 1_000_000;
  updated_at = 1_000_000;
}

abbrev event : OutboxEvent
event = record {
  id = "e1";
  tenant_id = "t1";
  kind = "campaign.started";
  payload = "c1";
  status = OutboxStatus.pending;
  attempts = 0;
  next_attempt_at = 1_000_000;
  lease_owner = "";
  lease_until = 0;
  last_error = "";
  created_at = 1_000_000;
  delivered_at = 0;
}

abbrev pub tenant : CampaignStatus → Tenant
tenant status = record {
  base = loaded;
  campaigns = ("c1", campaign status) ∷ [];
  senders = ("s1", "news@x.org") ∷ [];
  templates = [];
  outbox = ("e1", event) ∷ [];
}

abbrev running : System
running = record { tenant = tenant CampaignStatus.running; reads = [] }

-- A handler has read the running campaign, and then pauses it.
abbrev read_once : System
read_once = record running { reads = campaign CampaignStatus.running ∷ [] }

reads_it : Step marshal running read_once
unfolding lookup
reads_it = step_read (campaign CampaignStatus.running) refl

interleaving_moves_example :
    Evolves read_once.tenant
      (act marshal pauses 5_000_000 6_000_000 (campaign CampaignStatus.running) read_once.tenant)
interleaving_moves_example =
    interleaving_moves marshal running read_once
      (record read_once {
        tenant =
            act marshal pauses 5_000_000 6_000_000 (campaign CampaignStatus.running)
              read_once.tenant;
      })
      refl (further reads_it here)
      (step_act 0 (campaign CampaignStatus.running) pauses 5_000_000 6_000_000 refl)

-- The campaign is cancelled; then a pause arrives that read it while it was running.
abbrev after_cancel : System
after_cancel = record read_once {
  tenant =
      act marshal cancels 5_000_000 6_000_000 (campaign CampaignStatus.running) read_once.tenant;
}

abbrev after_pause : System
after_pause = record after_cancel {
  tenant =
      act marshal pauses 7_000_000 8_000_000 (campaign CampaignStatus.running) after_cancel.tenant;
}

cancelled_forever_example :
    (q : Campaign) × (lookup "c1" after_pause.tenant.campaigns ≡ some q)
    × (q.status ≡ CampaignStatus.cancelled)
unfolding cancel_read update_campaign updated_campaign truncate_campaign enqueue_campaign_event
    enqueue enqueue_all enqueue_one truncate_time adjust lookup
cancelled_forever_example =
    cancelled_forever marshal "c1" running after_cancel after_pause
      (record (campaign CampaignStatus.cancelled) {
        completed_at = 5_000_000;
        version = 4;
        updated_at = 6_000_000;
      })
      refl
      (further reads_it (
        further (step_act 0 (campaign CampaignStatus.running) cancels 5_000_000 6_000_000 refl)
          here))
      refl refl
      (further (step_act 0 (campaign CampaignStatus.running) pauses 7_000_000 8_000_000 refl) here)

-- The batch is still queued, so the campaign goes on.
finalize_completes_iff_example :
    Leaves "c1"
      (finalize_one marshal
        (record { large_campaign_rows = 100; large_campaign_every = 5 })
        none
        (campaign CampaignStatus.running)
        5_000_000
        6_000_000
        []
        (tenant CampaignStatus.running))
      (verdict (rows_of_campaign "c1" loaded.deliveries) (open_rows "c1" loaded.deliveries))
unfolding lookup
finalize_completes_iff_example =
    finalize_completes_iff marshal 5_000_000 6_000_000 (campaign CampaignStatus.running)
      (tenant CampaignStatus.running) refl refl refl
      (record { large_campaign_rows = 100; large_campaign_every = 5 }) none [] refl

abbrev failed_only : RetryFilter
failed_only = record {
  campaign_id = "c1";
  delivery_ids = none;
  statuses = DeliveryStatus.failed ∷ [];
  error_classes = [];
  now = 5_000_000;
}

-- A tenant whose second delivery has failed.
abbrev with_failed : TenantData
with_failed = record loaded {
  deliveries =
      ("d1", row "d1" "a@x.org" 0)
      ∷ ("d2", record (row "d2" "b@x.org" 5) { status = DeliveryStatus.failed; attempt_count = 3 })
      ∷ ("d3", row "d3" "c@x.org" 0)
      ∷ [];
}

one-IsMap : IsMap (tenant CampaignStatus.running).outbox
one-IsMap k = ground arith

event_claim_exclusive_example :
    contains
      (claimed_events 10
        (truncate_time 9_000_000)
        (("e1", leased_event "leader" 35_000_000 event) ∷ []))
      "e1"
    ≡ false
unfolding claim_pending claimed_events claimable_event leased_event truncate_time matching sort
    insert_sorted limited adjust_all adjust lookup
event_claim_exclusive_example =
    event_claim_exclusive 10 10 30_000_000 "leader" 5_000_000 9_000_000
      (tenant CampaignStatus.running)
      (record (tenant CampaignStatus.running) {
        outbox = ("e1", leased_event "leader" 35_000_000 event) ∷ [];
      })
      (leased_event "leader" 35_000_000 event ∷ []) "e1" one-IsMap
      (ground (arith, eq_iff "leader" "")) (ground arith) refl refl

abbrev dispatcher : DispatchConfig
dispatcher = record { outbox_max_attempts = 2; outbox_backoff = 60_000_000 ∷ [] }

-- Two failures, of two attempts.
dead_letter_iff_example :
    (r : OutboxEvent) × (lookup "e1"
        (failed_dispatches dispatcher "e1"
          (("refused", 5_000_000) ∷ ("refused", 99_000_000) ∷ [])
          (tenant CampaignStatus.running)).outbox
      ≡ some r)
    × IsTried dispatcher "e1" r
        (0 + suc (length {A = String × Time} (("refused", 99_000_000) ∷ [])))
unfolding lookup
dead_letter_iff_example =
    dead_letter_iff dispatcher "e1" "refused" 5_000_000 (("refused", 99_000_000) ∷ [])
      (tenant CampaignStatus.running) event refl refl refl (ground arith)
