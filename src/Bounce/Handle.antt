-- ===== src/Bounce/Handle.antt =====
-- internal/bounce/process.go and platform.go: `Processor.Handle` on a parsed message.
use sendplane.Common.{
  suc, String, Bool, true, false, ◌||◌, not, [], ◌∷◌, Option, none, some, str_eq, if◌then◌else◌,
  lookup, insert, take, ltb,
}
use sendplane.Store.Enums.{DeliveryStatus, Lane, lane_eq}
use sendplane.Store.Errors.{Result, StoreError, ok, err, ◌>>◌}
use sendplane.Store.Time.{Time, zero_time, is_zero, truncate_time}
use sendplane.Store.Delivery.{Delivery}
use sendplane.Store.Campaign.{OutboxEvent, OutboxStatus}
use sendplane.Memstore.{check, next_id}
use sendplane.Memstore.Deliveries.Complete.{mark_terminal}
use sendplane.Memstore.Outbox.{enqueue}
use sendplane.Memstore.Suppressions.{Suppression, upsert}
use sendplane.Bounce.Types.{
  Parsed, BounceEvent, BouncePayload, Message, Outcome, BounceData, HandleConfig, Handled,
  nothing_done, skip, fails, is_platform_id, is_bounce, is_soft, received_at, terminal_of,
  reason_of, event_type_of, source_label, is_foreign,
}

-- `normalize` is NormalizeEmail, which rests on Go's net/mail and on x/net/idna; `marshal` is
-- json.Marshal of a payload. `now` is the processor's clock, `clock` the store's.
module _ (normalize : String → Option String) (marshal : BouncePayload → String)
    (cfg : HandleConfig) (msg : Message) (p : Parsed) (now clock : Time) where
  unfoldable pub bounce_event : String → String → Option Delivery → BounceEvent
  unfolding received_at
  bounce_event id tenant d = record {
    id = id;
    tenant_id = tenant;
    delivery_id = p.correlation.delivery_id;
    kind = p.kind;
    source = source_label p.correlation.source;
    verified = p.correlation.verified;
    recipient = elim d [
      | none ↦ p.final_recipient
      | some row ↦ if str_eq p.final_recipient "" then row.email else p.final_recipient
    ];
    email_norm = elim d [
      | some row ↦ row.email_norm
      | none ↦
          if str_eq p.final_recipient ""
          then ""
          else elim (normalize p.final_recipient) [ none ↦ "" | some norm ↦ norm ]
    ];
    smtp_status = p.status;
    diagnostic_code = p.diagnostic_code;
    message_id = p.message_id;
    raw =
        if cfg.retain_raw
        then some (if ltb 0 cfg.max_raw_bytes then take cfg.max_raw_bytes msg.raw else msg.raw)
        else none;
    received_at = truncate_time (received_at msg p now);
    created_at = truncate_time (if is_zero now then clock else now);
  }

  -- `Processor.record`: the event, under a new identifier.
  unfoldable pub record_bounce : Option Delivery → BounceData → Result (BounceData × String)
  record_bounce d s = do
    check s.tenant.base
    elim (lookup (next_id s.tenant.base) s.bounces) [
      | some row ↦ err StoreError.err_conflict
      | none ↦ ok (
        record s {
          tenant = record s.tenant {
            base = record s.tenant.base { issued = suc s.tenant.base.issued };
          };
          bounces =
              insert (next_id s.tenant.base)
                (bounce_event (next_id s.tenant.base) s.tenant.base.tenant d) s.bounces;
        },
        next_id s.tenant.base,
      )
    ]

  abbrev pub recorded : String → Outcome → Outcome
  recorded id out = record out { recorded = true; event_id = id }

  -- Record the event, and say why nothing more happens.
  unfoldable pub record_and_skip : String → Option Delivery → Outcome → BounceData → Handled
  record_and_skip reason d out s = elim (record_bounce d s) [
    | err e ↦ fails (record out { skipped = reason }) s
    | ok r ↦ skip reason (recorded r.1 out) r.0
  ]

  abbrev pub suppression_for : Delivery → Suppression
  suppression_for d = record {
    tenant_id = "";
    email_norm = d.email_norm;
    reason = reason_of p.kind;
    source_delivery_id = d.id;
    created_at = now;
    expires_at = zero_time;
  }

  -- The tenant's list, if it keeps one.
  unfoldable pub suppress_tenant : Delivery → BounceData → Result BounceData
  suppress_tenant d s =
      if not cfg.suppression_enabled
      then ok s
      else elim (upsert (suppression_for d) clock s.tenant.base s.suppressions) [
        | err e ↦ err e
        | ok rows ↦ ok (record s { suppressions = rows })
      ]

  -- `suppressPlatform`: the list of the system tenant, for a delivery of a shared transport. The
  -- sender may have been removed.
  unfoldable pub suppress_platform : Delivery → BounceData → Result BounceData
  suppress_platform d s =
      if not cfg.has_provider || str_eq d.sender_id "" || str_eq d.email_norm ""
      then ok s
      else elim (lookup d.sender_id s.tenant.senders) [
        | none ↦ ok s
        | some transport_id ↦
            if not (is_platform_id transport_id)
            then ok s
            else elim (upsert (suppression_for d) clock
                (record s.tenant.base { tenant = cfg.system }) s.platform) [
                  | err e ↦ err e
                  | ok rows ↦ ok (record s { platform = rows })
                ]
      ]

  unfoldable pub bounce_outbox_event : Delivery → Bool → OutboxEvent
  bounce_outbox_event d suppressed = record {
    id = "";
    tenant_id = "";
    kind = event_type_of p.kind;
    payload = marshal (record {
      delivery_id = d.id;
      campaign_id = d.campaign_id;
      status = terminal_of p.kind;
      email = d.email;
      email_norm = d.email_norm;
      lane = d.lane;
      occurred_at = now;
      bounce_type = p.kind;
      bounce_source = p.correlation.source;
      smtp_status = p.status;
      diagnostic_code = p.diagnostic_code;
      confidence = p.confidence;
      suppressed = suppressed;
    });
    status = OutboxStatus.pending;
    attempts = 0;
    next_attempt_at = now;
    lease_owner = "";
    lease_until = zero_time;
    last_error = "";
    created_at = now;
    delivered_at = zero_time;
  }

  -- The event for the host, at the end.
  unfoldable pub emit : Delivery → Outcome → BounceData → Handled
  emit d out s = elim (enqueue (bounce_outbox_event d out.suppressed ∷ []) clock s.tenant) [
    | err e ↦ fails out s
    | ok t ↦ record { outcome = out; failed = false; state = record s { tenant = t } }
  ]

  -- A probe's address is not suppressed.
  unfoldable pub suppress_and_emit : Delivery → Outcome → BounceData → Handled
  suppress_and_emit d out s =
      if lane_eq d.lane Lane.probe then emit d out s else elim (suppress_tenant d s) [
        | err e ↦ fails out s
        | ok s' ↦
            let out' = record out { suppressed = cfg.suppression_enabled } in
            elim (suppress_platform d s') [ err e ↦ fails out' s' | ok s'' ↦ emit d out' s'' ]
      ]

  -- The transition of a delivery that was sent, by its hard bounce or complaint.
  unfoldable pub transition : Delivery → Outcome → BounceData → Handled
  transition d out s = elim (mark_terminal d.id (terminal_of p.kind) now s.tenant.base) [
    | err e ↦ fails out s
    | ok r ↦
        if not r.1
        then skip "not_transitioned" out s
        else suppress_and_emit d (record out { processed = true; new_status = terminal_of p.kind })
            (record s { tenant = record s.tenant { base = r.0 } })
  ]

  unfoldable pub handle_sent : Delivery → BounceData → Handled
  handle_sent d s = elim (record_bounce (some d) s) [
    | err e ↦ fails nothing_done s
    | ok r ↦
        if is_soft p.kind
        then skip "soft_bounce" (recorded r.1 nothing_done) r.0
        else transition d (recorded r.1 nothing_done) r.0
  ]

  -- A delivery that has bounced already: a late delay notice is kept, a redelivered report is not.
  unfoldable pub handle_again : Delivery → BounceData → Handled
  handle_again d s =
      if is_soft p.kind
      then record_and_skip "soft_bounce" (some d) nothing_done s
      else skip "already_terminal" nothing_done s

  -- By the status of the delivery.
  unfoldable pub handle_delivery : Delivery → BounceData → Handled
  handle_delivery d s =
      if not p.correlation.verified
      then record_and_skip "unverified" (some d) (record nothing_done { unverified = true }) s
      else elim d.status [
        | DeliveryStatus.sent ↦ handle_sent d s
        | DeliveryStatus.bounced ↦ handle_again d s
        | DeliveryStatus.complained ↦ handle_again d s
        | other ↦ skip "delivery_not_sent" nothing_done s
      ]

  -- `Processor.Handle`
  unfoldable pub handle : String → BounceData → Handled
  handle tenant_id s =
      if s.tenant.base.closed
      then fails nothing_done s
      else if p.auto_reply
      then skip "auto_reply" nothing_done s
      else if not (is_bounce p)
      then skip "not_a_bounce" nothing_done s
      else if str_eq p.correlation.delivery_id ""
      then record_and_skip "no_correlation" none nothing_done s
      else if is_foreign p tenant_id
      then skip "wrong_tenant" nothing_done s
      else elim (lookup p.correlation.delivery_id s.tenant.base.deliveries) [
        | none ↦ record_and_skip "unknown_delivery" none nothing_done s
        | some d ↦ handle_delivery d s
      ]
