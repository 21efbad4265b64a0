-- ===== src/Memstore/Deliveries/Complete.antt =====
-- store/memstore/delivery.go: the end of a lease (`Complete`, `MarkSent`), the bounces that arrive
-- later (`MarkBounced`, `MarkComplained`), and the first interaction of a recipient.
use sendplane.Common.{
  suc, String, Bool, true, false, ◌||◌, ◌&&◌, not, List, [], ◌∷◌, none, some, str_eq, if◌then◌else◌,
  lookup, adjust,
}
use sendplane.Store.Enums.{DeliveryStatus, status_eq, terminal}
use sendplane.Store.Errors.{Result, StoreError, ok, err, ◌>>◌}
use sendplane.Store.Time.{Time, zero_time, is_zero, truncate_time}
use sendplane.Store.Delivery.{Delivery, DeliveryResult}
use sendplane.Memstore.{TenantData, check}
use sendplane.Memstore.Deliveries.Rows.{truncate_delivery}
use sendplane.Memstore.Deliveries.Insert.{insert_attempt}

-- The lease moved on: the result's owner is not the row's.
abbrev pub stale : DeliveryResult → Delivery → Bool
stale res d = str_eq res.lease_owner "" || not (str_eq d.lease_owner res.lease_owner)

unfoldable pub apply_result : Time → DeliveryResult → Delivery → Delivery
apply_result now res d = truncate_delivery (record d {
  status = res.new_status;
  last_error_class = res.error_class;
  last_smtp_code = res.smtp_code;
  last_error = res.error;
  message_id = if not (str_eq res.message_id "") then res.message_id else d.message_id;
  attempt_count = if res.increment_attempt then suc d.attempt_count else d.attempt_count;
  next_attempt_at =
      if not (is_zero res.next_attempt_at) then res.next_attempt_at else d.next_attempt_at;
  sent_at =
      if status_eq res.new_status DeliveryStatus.sent && is_zero d.sent_at then now else d.sent_at;
  finished_at = if terminal res.new_status then now else d.finished_at;
  lease_owner = "";
  lease_until = zero_time;
  updated_at = now;
})

record_attempt : Time → DeliveryResult → TenantData → TenantData
record_attempt now res s = elim res.attempt [
  | none ↦ s
  | some a ↦ insert_attempt s now (record a { delivery_id = res.delivery_id })
]

-- One round of the loop of `Complete`.
unfoldable pub complete_one : Time → DeliveryResult → TenantData → TenantData
unfolding record_attempt
complete_one now res s = elim (lookup res.delivery_id s.deliveries) [
  | none ↦ s
  | some d ↦
      if stale res d
      then s
      else record_attempt now res
          (record s { deliveries = adjust res.delivery_id (apply_result now res) s.deliveries })
]

unfoldable pub complete_all : Time → List DeliveryResult → TenantData → TenantData
complete_all now [] s = s
complete_all now (res ∷ results) s = complete_all now results (complete_one now res s)

unfoldable pub complete : List DeliveryResult → Time → TenantData → Result TenantData
complete results clock s = do check s; ok (complete_all (truncate_time clock) results s)

unfoldable pub sent_row : String → Time → Delivery → Delivery
sent_row message_id at d = truncate_delivery (record d {
  status = DeliveryStatus.sent;
  message_id = message_id;
  sent_at = at;
  finished_at = at;
  updated_at = at;
})

-- The lease is kept, so that `complete` can still attach the attempt.
unfoldable pub mark_sent : String → String → String → Time → TenantData → Result TenantData
mark_sent id owner message_id at s = do
  check s
  elim (lookup id s.deliveries) [
    | none ↦ err StoreError.err_not_found
    | some d ↦
        if not (status_eq d.status DeliveryStatus.leased)
          || str_eq owner ""
          || not (str_eq d.lease_owner owner)
        then err StoreError.err_lease_lost
        else ok (record s { deliveries = adjust id (sent_row message_id at) s.deliveries })
  ]

unfoldable pub terminal_row : DeliveryStatus → Time → Delivery → Delivery
terminal_row to at d = truncate_delivery (record d {
  status = to;
  finished_at = at;
  updated_at = at;
  lease_owner = "";
  lease_until = zero_time;
})

unfoldable pub mark_terminal :
    String → DeliveryStatus → Time → TenantData → Result (TenantData × Bool)
mark_terminal id to at s = do
  check s
  elim (lookup id s.deliveries) [
    | none ↦ ok (s, false)
    | some d ↦
        if not (status_eq d.status DeliveryStatus.sent)
        then ok (s, false)
        else ok (record s { deliveries = adjust id (terminal_row to at) s.deliveries }, true)
  ]

unfoldable pub mark_bounced : String → Time → TenantData → Result (TenantData × Bool)
unfolding mark_terminal
mark_bounced id at s = mark_terminal id DeliveryStatus.bounced at s

unfoldable pub mark_complained : String → Time → TenantData → Result (TenantData × Bool)
unfolding mark_terminal
mark_complained id at s = mark_terminal id DeliveryStatus.complained at s

-- The timestamp that a first interaction sets, and the row with it set.
pub data Interaction : Type 0 where
  opened clicked unsubscribed : Interaction

unfoldable pub interaction_at : Interaction → Delivery → Time
interaction_at Interaction.opened d = d.first_opened_at
interaction_at Interaction.clicked d = d.first_clicked_at
interaction_at Interaction.unsubscribed d = d.unsubscribed_at

unfoldable pub interacted : Interaction → Time → Delivery → Delivery
interacted Interaction.opened at d =
    truncate_delivery (record d { first_opened_at = at; updated_at = at })
interacted Interaction.clicked at d =
    truncate_delivery (record d { first_clicked_at = at; updated_at = at })
interacted Interaction.unsubscribed at d =
    truncate_delivery (record d { unsubscribed_at = at; updated_at = at })

unfoldable pub set_first : String → Time → Interaction → TenantData → Result (TenantData × Bool)
unfolding interaction_at interacted
set_first id at field s = do
  check s
  elim (lookup id s.deliveries) [
    | none ↦ ok (s, false)
    | some d ↦
        if not (is_zero (interaction_at field d))
        then ok (s, false)
        else ok (record s { deliveries = adjust id (interacted field at) s.deliveries }, true)
  ]
