-- ===== src/Bounce/Redelivery.antt =====
-- internal/bounce/process.go: a report that comes in a second time.
use sendplane.Common.{
  String, ◌≡◌, refl, ◌∙◌, ◌⊎◌, inl, inr, true, false, Option, none, some, arith, lookup, adjust,
  str_eq, eq_iff, lookup-adjust,
}
use sendplane.Store.Enums.{DeliveryStatus, BounceType}
use sendplane.Store.Time.{Time}
use sendplane.Store.Delivery.{Delivery}
use sendplane.Memstore.Deliveries.Rows.{truncate_delivery}
use sendplane.Memstore.Deliveries.Complete.{terminal_row}
use sendplane.Memstore.Deliveries.Valid.{IsValid}
use sendplane.Bounce.Types.{
  Parsed, BouncePayload, Message, BounceData, HandleConfig, nothing_done, skip, is_bounce,
  is_foreign, is_soft, terminal_of,
}
use sendplane.Bounce.Handle.{handle, handle_delivery, handle_again}
use sendplane.Bounce.Effects.{handle_cases, record_and_skip-Untouched}

terminal_of_cases :
    (k : BounceType)
    → (terminal_of k ≡ DeliveryStatus.bounced) ⊎ (terminal_of k ≡ DeliveryStatus.complained)
terminal_of_cases k = ground arith

module _ (normalize : String → Option String) (marshal : BouncePayload → String)
    (cfg : HandleConfig) (msg : Message) (p : Parsed) where
  -- A store in which the report's delivery has ended already, by a bounce or a complaint.
  abbrev HasEnded : BounceData → Type 0
  HasEnded s =
      (d : Delivery) × (lookup p.correlation.delivery_id s.tenant.base.deliveries ≡ some d)
      × ((d.status ≡ DeliveryStatus.bounced) ⊎ (d.status ≡ DeliveryStatus.complained))

  handle-HasEnded :
      (now clock : Time) (tenant_id : String) (s : BounceData)
      → s.tenant.base.closed ≡ false
      → is_bounce p ≡ true
      → is_soft p.kind ≡ false
      → p.correlation.verified ≡ true
      → is_foreign p tenant_id ≡ false
      → str_eq p.correlation.delivery_id "" ≡ false
      → HasEnded s
      → handle normalize marshal cfg msg p now clock tenant_id s
        ≡ skip "already_terminal" nothing_done s
  unfolding handle handle_delivery handle_again
  handle-HasEnded now clock tenant_id s c b n v f z (d, at, e) = ground arith

  pub own_tenant :
      (tenant_id : String)
      → (p.correlation.tenant_id ≡ "") ⊎ (p.correlation.tenant_id ≡ tenant_id)
      → is_foreign p tenant_id ≡ false
  own_tenant tenant_id h =
      ground (arith, eq_iff p.correlation.tenant_id "", eq_iff p.correlation.tenant_id tenant_id)

  ended_row :
      (d : Delivery) (now : Time) (s t : BounceData)
      → d.id ≡ p.correlation.delivery_id
      → lookup p.correlation.delivery_id s.tenant.base.deliveries ≡ some d
      → t.tenant.base.deliveries
        ≡ adjust d.id (terminal_row (terminal_of p.kind) now) s.tenant.base.deliveries
      → HasEnded t
  unfolding terminal_row truncate_delivery
  ended_row d now s t same at e = (
    terminal_row (terminal_of p.kind) now d,
    ground (
      arith,
      eq_iff d.id p.correlation.delivery_id,
      lookup-adjust d.id p.correlation.delivery_id (terminal_row (terminal_of p.kind) now)
          s.tenant.base.deliveries,
    ),
    terminal_of_cases p.kind,
  )

  pub processed_open :
      (now clock : Time) (tenant_id : String) (s : BounceData)
      → (handle normalize marshal cfg msg p now clock tenant_id s).outcome.processed ≡ true
      → (s.tenant.base.closed ≡ false) × (str_eq p.correlation.delivery_id "" ≡ false)
  unfolding handle
  processed_open now clock tenant_id s h = (
    ground arith,
    ground (
      arith,
      record_and_skip-Untouched normalize marshal cfg msg p now clock "no_correlation" none
          nothing_done s refl,
    ),
  )

  -- A report that ended its delivery changes nothing when it comes in again, at any later time and
  -- also when the first run failed after the transition: then the address is not put on a list and
  -- the host gets no event.
  pub redelivery_is_skipped :
      (now clock now' clock' : Time) (tenant_id : String) (s : BounceData)
      → IsValid s.tenant.base
      → (handle normalize marshal cfg msg p now clock tenant_id s).outcome.processed ≡ true
      → let h = handle normalize marshal cfg msg p now clock tenant_id s in
        handle normalize marshal cfg msg p now' clock' tenant_id h.state
        ≡ skip "already_terminal" nothing_done h.state
  redelivery_is_skipped now clock now' clock' tenant_id s v done =
      elim (handle_cases normalize marshal cfg msg p now clock tenant_id s) [
        | inl u ↦ absurd (ground arith)
        | inr (d, auth, ended) ↦
            let state = (handle normalize marshal cfg msg p now clock tenant_id s).state in
            let opened = processed_open now clock tenant_id s done in
            handle-HasEnded now' clock' tenant_id state (ended.2.1 ∙ opened.0) auth.1 ended.1 auth.0
              (own_tenant tenant_id auth.2) opened.1
              (ended_row d now s state (v.ids p.correlation.delivery_id d auth.3) auth.3 ended.2.0)
      ]
