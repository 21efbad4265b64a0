-- ===== src/Bounce/Effects.antt =====
-- internal/bounce/process.go: what handling a message does to the deliveries.
use sendplane.Common.{
  String, ◌≡◌, refl, ◌⊎◌, inl, inr, Bool, true, false, [], ◌∷◌, Option, none, some, Map, arith,
  lookup, adjust, str_eq, eq_iff, Bool-cases, Option-cases,
}
use sendplane.Store.Enums.{DeliveryStatus, Lane, lane_eq}
use sendplane.Store.Errors.{Result-cases, ok}
use sendplane.Store.Time.{Time}
use sendplane.Store.Delivery.{Delivery}
use sendplane.Store.Campaign.{OutboxEvent}
use sendplane.Memstore.{TenantData}
use sendplane.Memstore.Tenant.{Tenant}
use sendplane.Memstore.Deliveries.Complete.{mark_terminal, terminal_row}
use sendplane.Memstore.Outbox.{enqueue, enqueue_all, enqueue_one}
use sendplane.Bounce.Types.{
  Parsed, BouncePayload, Message, Outcome, BounceData, HandleConfig, Handled, nothing_done,
  is_bounce, is_foreign, is_soft, terminal_of,
}
use sendplane.Bounce.Handle.{
  record_bounce, recorded, record_and_skip, suppress_tenant, suppress_platform, bounce_outbox_event,
  emit, suppress_and_emit, transition, handle_sent, handle_again, handle_delivery, handle,
}

-- The deliveries that a run leaves, and whether the store is closed.
abbrev pub Leaves : Map Delivery → Bool → BounceData → Type 0
Leaves rows closed s = (s.tenant.base.deliveries ≡ rows) × (s.tenant.base.closed ≡ closed)

-- The delivery was not touched.
abbrev pub Untouched : BounceData → Handled → Type 0
Untouched s h =
    (h.outcome.processed ≡ false) × Leaves s.tenant.base.deliveries s.tenant.base.closed h.state

enqueue-Leaves :
    (e : OutboxEvent) (clock : Time) (t t' : Tenant)
    → enqueue (e ∷ []) clock t ≡ ok t'
    → (t'.base.deliveries ≡ t.base.deliveries) × (t'.base.closed ≡ t.base.closed)
unfolding enqueue enqueue_all enqueue_one
enqueue-Leaves e clock t t' h = ground arith

module _ (normalize : String → Option String) (marshal : BouncePayload → String)
    (cfg : HandleConfig) (msg : Message) (p : Parsed) (now clock : Time) where
  record_bounce-Leaves :
      (d : Option Delivery) (s : BounceData) (r : BounceData × String)
      → record_bounce normalize marshal cfg msg p now clock d s ≡ ok r
      → Leaves s.tenant.base.deliveries s.tenant.base.closed r.0
  unfolding record_bounce
  record_bounce-Leaves d s r h = ground arith

  pub record_and_skip-Untouched :
      (reason : String) (d : Option Delivery) (out : Outcome) (s : BounceData)
      → out.processed ≡ false
      → Untouched s (record_and_skip normalize marshal cfg msg p now clock reason d out s)
  unfolding record_and_skip
  record_and_skip-Untouched reason d out s h =
      elim (Result-cases (record_bounce normalize marshal cfg msg p now clock d s)) [
        | inl (e, k) ↦ ground arith
        | inr (r, k) ↦ ground (arith, record_bounce-Leaves d s r k)
      ]

  -- After the transition nothing touches the deliveries again.
  abbrev Done : BounceData → Handled → Type 0
  Done s h =
      (h.outcome.processed ≡ true) × Leaves s.tenant.base.deliveries s.tenant.base.closed h.state

  emit-Done :
      (d : Delivery) (out : Outcome) (s : BounceData)
      → out.processed ≡ true
      → Done s (emit normalize marshal cfg msg p now clock d out s)
  unfolding emit
  emit-Done d out s h =
      let e = bounce_outbox_event normalize marshal cfg msg p now clock d out.suppressed in
      elim (Result-cases (enqueue (e ∷ []) clock s.tenant)) [
        | inl (x, k) ↦ ground arith
        | inr (t, k) ↦ ground (arith, enqueue-Leaves e clock s.tenant t k)
      ]

  suppress_tenant-tenant :
      (d : Delivery) (s s' : BounceData)
      → suppress_tenant normalize marshal cfg msg p now clock d s ≡ ok s'
      → s'.tenant ≡ s.tenant
  unfolding suppress_tenant
  suppress_tenant-tenant d s s' h = ground arith

  suppress_platform-tenant :
      (d : Delivery) (s s' : BounceData)
      → suppress_platform normalize marshal cfg msg p now clock d s ≡ ok s'
      → s'.tenant ≡ s.tenant
  unfolding suppress_platform
  suppress_platform-tenant d s s' h = ground arith

  suppress_and_emit-Done :
      (d : Delivery) (out : Outcome) (s : BounceData)
      → out.processed ≡ true
      → Done s (suppress_and_emit normalize marshal cfg msg p now clock d out s)
  unfolding suppress_and_emit
  suppress_and_emit-Done d out s h = elim (Bool-cases (lane_eq d.lane Lane.probe)) [
    | inl l ↦ ground (arith, emit-Done d out s h)
    | inr l ↦ elim (Result-cases (suppress_tenant normalize marshal cfg msg p now clock d s)) [
      | inl (e, k) ↦ ground arith
      | inr (s', k) ↦
          let out' = record out { suppressed = cfg.suppression_enabled } in
          let same = suppress_tenant-tenant d s s' k in
          elim (Result-cases (suppress_platform normalize marshal cfg msg p now clock d s')) [
            | inl (e, k') ↦ ground arith
            | inr (s'', k') ↦
                ground (arith, same, suppress_platform-tenant d s' s'' k', emit-Done d out' s'' h)
          ]
    ]
  ]

  -- The row of the delivery was ended by its hard bounce or complaint.
  abbrev pub Ended : Delivery → BounceData → Handled → Type 0
  Ended d s h =
      (h.outcome.processed ≡ true)
      × (is_soft p.kind ≡ false)
      × Leaves (adjust d.id (terminal_row (terminal_of p.kind) now) s.tenant.base.deliveries)
          s.tenant.base.closed h.state

  mark_terminal-true :
      (id : String) (to : DeliveryStatus) (s s' : TenantData)
      → mark_terminal id to now s ≡ ok (s', true)
      → s' ≡ record s { deliveries = adjust id (terminal_row to now) s.deliveries }
  unfolding mark_terminal
  mark_terminal-true id to s s' h = ground arith

  transition_cases :
      (d : Delivery) (out : Outcome) (s : BounceData)
      → out.processed ≡ false
      → is_soft p.kind ≡ false
      → Untouched s (transition normalize marshal cfg msg p now clock d out s)
        ⊎ Ended d s (transition normalize marshal cfg msg p now clock d out s)
  unfolding transition
  transition_cases d out s h n =
      elim (Result-cases (mark_terminal d.id (terminal_of p.kind) now s.tenant.base)) [
        | inl (e, k) ↦ inl (ground arith)
        | inr (r, k) ↦ elim (Bool-cases r.1) [
          | inr b ↦ inl (ground arith)
          | inl b ↦
              let marked =
                mark_terminal-true d.id (terminal_of p.kind) s.tenant.base r.0 (ground arith) in
              let done =
                suppress_and_emit-Done d
                  (record out { processed = true; new_status = terminal_of p.kind })
                  (record s { tenant = record s.tenant { base = r.0 } }) refl in
              inr (ground (arith, marked, done))
        ]
      ]

  handle_sent_cases :
      (d : Delivery) (s : BounceData)
      → Untouched s (handle_sent normalize marshal cfg msg p now clock d s)
        ⊎ Ended d s (handle_sent normalize marshal cfg msg p now clock d s)
  unfolding handle_sent
  handle_sent_cases d s =
      elim (Result-cases (record_bounce normalize marshal cfg msg p now clock (some d) s)) [
        | inl (e, k) ↦ inl (ground arith)
        | inr (r, k) ↦
            let kept = record_bounce-Leaves (some d) s r k in
            elim (Bool-cases (is_soft p.kind)) [
              | inl soft ↦ inl (ground (arith, kept))
              | inr other ↦
                  elim (transition_cases d
                    (recorded normalize marshal cfg msg p now clock r.1 nothing_done) r.0 refl
                    other) [
                      | inl u ↦ inl (ground (arith, kept))
                      | inr u ↦ inr (ground (arith, kept))
                    ]
            ]
      ]

  -- What an authentic report of this tenant names: a delivery that was sent.
  abbrev pub Authentic : String → Delivery → BounceData → Type 0
  Authentic tenant_id d s =
      (p.correlation.verified ≡ true)
      × (is_bounce p ≡ true)
      × ((p.correlation.tenant_id ≡ "") ⊎ (p.correlation.tenant_id ≡ tenant_id))
      × (lookup p.correlation.delivery_id s.tenant.base.deliveries ≡ some d)
      × (d.status ≡ DeliveryStatus.sent)

  handle_delivery_cases :
      (d : Delivery) (s : BounceData)
      → Untouched s (handle_delivery normalize marshal cfg msg p now clock d s)
        ⊎ ((p.correlation.verified ≡ true)
            × (d.status ≡ DeliveryStatus.sent)
            × Ended d s (handle_delivery normalize marshal cfg msg p now clock d s))
  unfolding handle_delivery handle_again
  handle_delivery_cases d s = ground (
    arith,
    handle_sent_cases d s,
    record_and_skip-Untouched "unverified" (some d) (record nothing_done { unverified = true }) s
        refl,
    record_and_skip-Untouched "soft_bounce" (some d) nothing_done s refl,
  )

  handle_named :
      (tenant_id : String) (s : BounceData)
      → s.tenant.base.closed ≡ false
      → p.auto_reply ≡ false
      → is_bounce p ≡ true
      → str_eq p.correlation.delivery_id "" ≡ false
      → is_foreign p tenant_id ≡ false
      → let h = handle normalize marshal cfg msg p now clock tenant_id s in
        Untouched s h ⊎ ((d : Delivery) × Authentic tenant_id d s × Ended d s h)
  unfolding handle
  handle_named tenant_id s c a b z f =
      elim (Option-cases (lookup p.correlation.delivery_id s.tenant.base.deliveries)) [
        | inl e ↦
            inl (
              ground (arith, record_and_skip-Untouched "unknown_delivery" none nothing_done s refl))
        | inr (d, e) ↦ elim (handle_delivery_cases d s) [
          | inl u ↦ inl (ground arith)
          | inr (v, st, u) ↦ inr (
            d,
            (
              v,
              b,
              ground (
                arith,
                eq_iff p.correlation.tenant_id "",
                eq_iff p.correlation.tenant_id tenant_id,
              ),
              e,
              st,
            ),
            ground arith,
          )
        ]
      ]

  -- Handling a message leaves every delivery as it is, or it ends one: then the report is verified, not
  -- soft, of this tenant, and names that delivery, which was sent; its row becomes bounced, or
  -- complained for a complaint, and no other row changes. A forged or foreign report ends nothing.
  pub handle_cases :
      (tenant_id : String) (s : BounceData)
      → let h = handle normalize marshal cfg msg p now clock tenant_id s in
        Untouched s h ⊎ ((d : Delivery) × Authentic tenant_id d s × Ended d s h)
  unfolding handle
  handle_cases tenant_id s = elim (Bool-cases s.tenant.base.closed) [
    | inl c ↦ inl (ground arith)
    | inr c ↦ elim (Bool-cases p.auto_reply) [
      | inl a ↦ inl (ground arith)
      | inr a ↦ elim (Bool-cases (is_bounce p)) [
        | inr b ↦ inl (ground arith)
        | inl b ↦ elim (Bool-cases (str_eq p.correlation.delivery_id "")) [
          | inl z ↦
              inl (
                ground (arith, record_and_skip-Untouched "no_correlation" none nothing_done s refl))
          | inr z ↦ elim (Bool-cases (is_foreign p tenant_id)) [
            | inl f ↦ inl (ground arith)
            | inr f ↦ handle_named tenant_id s c a b z f
          ]
        ]
      ]
    ]
  ]
