-- ===== src/Tests/Bounces.antt =====
-- The return path of a delivery: its address, and the report that comes back to it.
use sendplane.Common.{
  ◌≡◌, refl, ◌≢◌, length, ◌⊎◌, String, true, false, none, [], ◌∷◌, ◌++◌, Bytes, codes, arith,
  adjust, some, lookup, insert, has_prefix, has_byte,
}
use sendplane.Store.Enums.{BounceType}
use sendplane.Store.Delivery.{Delivery}
use sendplane.Tracking.Verp.{SigningKeys, verp_address, parse_verp}
use sendplane.Tracking.Verp.RoundTrip.{verp_local, parse_verp-verp_address, verified_is_signed}
use sendplane.Bounce.Types.{
  BounceSource, Confidence, Parsed, BouncePayload, Message, BounceData, HandleConfig, Handled,
  nothing_done, skip,
}
use sendplane.Bounce.Handle.{
  handle, handle_delivery, handle_sent, transition, suppress_and_emit, record_bounce,
  suppress_tenant, suppress_platform, emit,
}
use sendplane.Memstore.Deliveries.Complete.{mark_terminal}
use sendplane.Memstore.Outbox.{enqueue}
use sendplane.Bounce.Effects.{Untouched, Authentic}
use sendplane.Bounce.Ends.{IsEndedBy, handle_ends}
use sendplane.Bounce.Redelivery.{redelivery_is_skipped}
use sendplane.Bounce.Listed.{answer_of}
use sendplane.Bounce.Retained.{Tick, run_ticks, bounced_not_mailed_again}
use sendplane.Control.Maintenance.{RetainedRows}
use sendplane.Tests.Retention.{retention_cfg, going, going_on}
use sendplane.Common.{List, IsMap, keys, count, ◌≤◌, subst, sym, pos}
use sendplane.Store.Errors.{ok}
use sendplane.Memstore.Suppressions.{is_suppressed, upsert}
use sendplane.Sender.Process.{World, process}
use sendplane.Sender.Outcomes.{offered}
use sendplane.Tests.Data.{row, with_second}
use sendplane.Tests.Deliveries.{sent_second, sent-IsValid}
use sendplane.Tests.Sending.{config, world, tracker, retry}

-- A digest of 32 bytes that depends on the key and on the length of the message.
abbrev digest : Bytes → Bytes → Bytes
digest key message =
    0x5a
    ∷ 0xa5
    ∷ length key
    ∷ length message
    ∷ 4
    ∷ 5
    ∷ 6
    ∷ 7
    ∷ 8
    ∷ 9
    ∷ 10
    ∷ 11
    ∷ 12
    ∷ 13
    ∷ 14
    ∷ 15
    ∷ 16
    ∷ 17
    ∷ 18
    ∷ 19
    ∷ 20
    ∷ 21
    ∷ 22
    ∷ 23
    ∷ 24
    ∷ 25
    ∷ 26
    ∷ 27
    ∷ 28
    ∷ 29
    ∷ 30
    ∷ 31
    ∷ []

abbrev keys_of_tenant : SigningKeys
keys_of_tenant = codes "old" ∷ codes "secret" ∷ []

parse_verp-verp_address_example :
    parse_verp digest
      (verp_address digest (codes "b.org") (codes "d.2") (codes "secret"))
      keys_of_tenant
    ≡ (codes "d.2", true)
unfolding has_byte
parse_verp-verp_address_example =
    parse_verp-verp_address digest (λ key message. refl) (codes "b.org") (codes "d.2")
      (codes "secret") (codes "old" ∷ []) [] (λ h. cc) (λ h. cc) (λ h. cc) refl

abbrev return_path : Bytes
return_path = verp_address digest (codes "b.org") (codes "d.2") (codes "secret")

verified_is_signed_example :
    (before : SigningKeys) × (k : Bytes) × (after : SigningKeys) × (keys_of_tenant
      ≡ before ++ k ∷ after)
    × (k ≢ [])
    × ((return_path ≡ verp_local digest (codes "d.2") k)
        ⊎ ((domain : Bytes) × (return_path ≡ verp_local digest (codes "d.2") k ++ b'@' ∷ domain)))
verified_is_signed_example =
    verified_is_signed digest return_path keys_of_tenant (codes "d.2")
      parse_verp-verp_address_example

abbrev bounce_data : BounceData
bounce_data = record {
  tenant = record {
    base = with_second sent_second;
    campaigns = [];
    senders = ("s1", "sys:shared") ∷ [];
    templates = [];
    outbox = [];
  };
  bounces = [];
  suppressions = [];
  platform = [];
}

abbrev keeps_list : HandleConfig
keeps_list = record {
  has_provider = true;
  system = "system";
  max_raw_bytes = 100;
  suppression_enabled = true;
  retain_raw = false;
}

abbrev report : Parsed
report = record {
  kind = BounceType.hard;
  auto_reply = false;
  status = "5.1.1";
  diagnostic_code = "smtp; 550 no such user";
  final_recipient = "";
  message_id = "";
  date = 0;
  confidence = Confidence.high;
  correlation = record {
    delivery_id = "d2";
    tenant_id = "";
    source = BounceSource.verp;
    verified = true;
  };
}

abbrev mail : Message
mail = record { raw = codes "report"; received = 5_000_000 }

abbrev body : BouncePayload → String
body x = x.delivery_id

abbrev handled : Handled
handled = handle (λ s. none) body keeps_list mail report 6_000_000 6_000_000 "t1" bounce_data

handle_ends_example :
    Untouched bounce_data handled
    ⊎ ((d : Delivery) × Authentic
          (λ s. none)
          body
          keeps_list
          mail
          report
          6_000_000
          6_000_000
          "t1"
          d
          bounce_data
        × ((e : Delivery) × (handled.state.tenant.base.deliveries
              ≡ adjust report.correlation.delivery_id (λ x. e) bounce_data.tenant.base.deliveries)
            × (lookup report.correlation.delivery_id handled.state.tenant.base.deliveries ≡ some e)
            × (handled.outcome.processed ≡ true)
            × IsEndedBy report.kind 6_000_000 d e))
handle_ends_example =
    handle_ends (λ s. none) body keeps_list mail report 6_000_000 6_000_000 "t1" bounce_data
      sent-IsValid

ends_delivery : handled.outcome.processed ≡ true
unfolding handle handle_delivery handle_sent transition suppress_and_emit record_bounce
    mark_terminal lookup insert suppress_tenant suppress_platform emit upsert enqueue has_prefix
ends_delivery = refl

does_not_fail : handled.failed ≡ false
unfolding handle handle_delivery handle_sent transition suppress_and_emit record_bounce
    mark_terminal lookup insert suppress_tenant suppress_platform emit upsert enqueue has_prefix
does_not_fail = refl

redelivery_is_skipped_example :
    handle (λ s. none) body keeps_list mail report 7_000_000 7_000_000 "t1" handled.state
    ≡ skip "already_terminal" nothing_done handled.state
redelivery_is_skipped_example =
    redelivery_is_skipped (λ s. none) body keeps_list mail report 6_000_000 6_000_000 7_000_000
      7_000_000 "t1" bounce_data sent-IsValid ends_delivery

abbrev next_mail : Delivery
next_mail = record (row "d9" "b@x.org" 0) { campaign_id = "c7" }

list_keys : keys handled.state.suppressions ≡ "b@x.org" ∷ []
unfolding handle handle_delivery handle_sent transition suppress_and_emit record_bounce
    mark_terminal lookup insert suppress_tenant suppress_platform emit upsert enqueue has_prefix
list_keys = refl

list-IsMap : IsMap handled.state.suppressions
list-IsMap k = subst (λ l. count k l ≤ 1) (sym list_keys) (ground arith)

-- The list as the report left it, and two ticks of the retention.
abbrev kept : RetainedRows
kept = record {
  tenant = handled.state.tenant;
  suppressions = handled.state.suppressions;
  tracking = [];
  bounces = [];
}

abbrev ticks : List Tick
ticks =
    record { days = ok (pos 30); pages = 5; now = 7_000_000 }
    ∷ record { days = ok (pos 30); pages = 5; now = 8_000_000 }
    ∷ []

-- The sender's world, with the list as the second tick left it.
abbrev later_world : World
later_world = record (world false) {
  suppressed = answer_of (
      is_suppressed "b@x.org" 9_000_000 handled.state.tenant.base
        (run_ticks retention_cfg going going_on ticks kept).suppressions);
}

bounced_not_mailed_again_example :
    offered (process config "t1" "system" later_world next_mail tracker).effects ≡ false
unfolding lookup
bounced_not_mailed_again_example =
    bounced_not_mailed_again retention_cfg going going_on (λ s. none) body keeps_list mail report
      6_000_000 6_000_000 "t1" sent_second bounce_data refl refl (ground arith) handled refl
      ends_delivery does_not_fail kept ticks 9_000_000 refl list-IsMap
      (omega arith, (omega arith, tt)) config "t1" "system" later_world next_mail
      (record { retry = retry; suppression_enabled = true }) tracker refl (ground arith) refl refl
      refl
