-- ===== src/Bounce/Listed.antt =====
-- internal/bounce/process.go with internal/sender/process.go: an address that bounced is not mailed.
use sendplane.Common.{
  String, ◌≡◌, refl, ◌≢◌, ◌∙◌, ap, sym, subst, ◌⊎◌, inl, inr, Bool, true, false, Option, some,
  arith, lookup, eq_iff, str_eq, lookup-insert, Bool-cases,
}
use sendplane.Store.Enums.{Lane}
use sendplane.Store.Errors.{Result, ok, err}
use sendplane.Store.Time.{Time, truncate_time, zero_time}
use sendplane.Store.Delivery.{Delivery}
use sendplane.Memstore.Deliveries.Complete.{mark_terminal}
use sendplane.Memstore.Suppressions.{Suppression, upsert, listed_row, in_force, is_suppressed}
use sendplane.Bounce.Types.{
  Parsed, BouncePayload, Message, Outcome, BounceData, HandleConfig, Handled, nothing_done, is_soft,
  is_foreign, terminal_of,
}
use sendplane.Bounce.Handle.{
  record_bounce, recorded, suppress_tenant, suppress_platform, suppression_for, emit,
  suppress_and_emit, transition, handle_sent, handle_delivery, handle,
}
use sendplane.Store.Errors.{Result-cases}
use sendplane.Bounce.Effects.{Authentic, handle_cases}
use sendplane.Bounce.Redelivery.{processed_open, own_tenant}
use sendplane.Sender.Health.{HealthTracker}
use sendplane.Sender.Process.{Answer, got, lost, Settings, Config, World, process}
use sendplane.Sender.Outcomes.{offered}
use sendplane.Sender.Suppression.{suppressed_not_offered}

-- The list has the address, with no end.
abbrev IsListed : String → BounceData → Type 0
IsListed email s =
    (v : Suppression) × (lookup email s.suppressions ≡ some v) × (v.expires_at ≡ zero_time)

-- If the run ended the delivery and did not fail, it listed the address.
abbrev IsReported : String → Handled → Type 0
IsReported email h = (h.outcome.processed ≡ false) ⊎ (h.failed ≡ true) ⊎ IsListed email h.state

module _ (normalize : String → Option String) (marshal : BouncePayload → String)
    (cfg : HandleConfig) (msg : Message) (p : Parsed) (now clock : Time)
    (enabled : cfg.suppression_enabled ≡ true) where
  entry-expires_at :
      (d : Delivery) (tenant : String)
      → (listed_row tenant clock
          (suppression_for normalize marshal cfg msg p now clock d)).expires_at
        ≡ zero_time
  unfolding listed_row truncate_time
  entry-expires_at d tenant = refl

  suppress_tenant-IsListed :
      (d : Delivery) (s s' : BounceData)
      → suppress_tenant normalize marshal cfg msg p now clock d s ≡ ok s'
      → IsListed d.email_norm s'
  unfolding suppress_tenant upsert
  suppress_tenant-IsListed d s s' h =
      let v =
        listed_row s.tenant.base.tenant clock
          (suppression_for normalize marshal cfg msg p now clock d) in
      (
        v,
        ground (
          arith,
          eq_iff d.email_norm d.email_norm,
          lookup-insert d.email_norm d.email_norm v s.suppressions,
        ),
        entry-expires_at d s.tenant.base.tenant,
      )

  suppress_platform-suppressions :
      (d : Delivery) (s s' : BounceData)
      → suppress_platform normalize marshal cfg msg p now clock d s ≡ ok s'
      → s'.suppressions ≡ s.suppressions
  unfolding suppress_platform
  suppress_platform-suppressions d s s' h = ground arith

  emit-suppressions :
      (d : Delivery) (out : Outcome) (s : BounceData)
      → (emit normalize marshal cfg msg p now clock d out s).state.suppressions ≡ s.suppressions
  unfolding emit
  emit-suppressions d out s = ground arith

  IsListed-again :
      (email : String) (s t : BounceData)
      → t.suppressions ≡ s.suppressions
      → IsListed email s
      → IsListed email t
  IsListed-again email s t e (v, at, x) = (v, ground arith, x)

  module _ (d : Delivery) (mailed : d.lane ≢ Lane.probe) where
    suppress_and_emit-IsReported :
        (out : Outcome) (s : BounceData)
        → IsReported d.email_norm (suppress_and_emit normalize marshal cfg msg p now clock d out s)
    unfolding suppress_and_emit
    suppress_and_emit-IsReported out s =
        elim (Result-cases (suppress_tenant normalize marshal cfg msg p now clock d s)) [
          | inl (e, k) ↦ inr (inl (ground arith))
          | inr (s', k) ↦
              elim (Result-cases (suppress_platform normalize marshal cfg msg p now clock d s')) [
                | inl (e, k') ↦ inr (inl (ground arith))
                | inr (s'', k') ↦
                    let out' = record out { suppressed = cfg.suppression_enabled } in
                    inr (
                      inr (
                        IsListed-again d.email_norm s'
                          (suppress_and_emit normalize marshal cfg msg p now clock d out s).state
                          (ground (
                            arith,
                            emit-suppressions d out' s'',
                            suppress_platform-suppressions d s' s'' k',
                          ))
                          (suppress_tenant-IsListed d s s' k)))
              ]
        ]

    transition-IsReported :
        (out : Outcome) (s : BounceData)
        → out.processed ≡ false
        → IsReported d.email_norm (transition normalize marshal cfg msg p now clock d out s)
    unfolding transition
    transition-IsReported out s h =
        elim (Result-cases (mark_terminal d.id (terminal_of p.kind) now s.tenant.base)) [
          | inl (e, k) ↦ inl (ground arith)
          | inr (r, k) ↦ elim (Bool-cases r.1) [
            | inr b ↦ inl (ground arith)
            | inl b ↦
                let out' = record out { processed = true; new_status = terminal_of p.kind } in
                let s' = record s { tenant = record s.tenant { base = r.0 } } in
                let step : suppress_and_emit normalize marshal cfg msg p now clock d out' s'
                    ≡ transition normalize marshal cfg msg p now clock d out s =
                  ground arith in
                subst (IsReported d.email_norm) step (suppress_and_emit-IsReported out' s')
          ]
        ]

    handle_sent-IsReported :
        (s : BounceData)
        → IsReported d.email_norm (handle_sent normalize marshal cfg msg p now clock d s)
    unfolding handle_sent
    handle_sent-IsReported s =
        elim (Result-cases (record_bounce normalize marshal cfg msg p now clock (some d) s)) [
          | inl (e, k) ↦ inl (ground arith)
          | inr (r, k) ↦ elim (Bool-cases (is_soft p.kind)) [
            | inl soft ↦ inl (ground arith)
            | inr other ↦
                let out = recorded normalize marshal cfg msg p now clock r.1 nothing_done in
                let step : transition normalize marshal cfg msg p now clock d out r.0
                    ≡ handle_sent normalize marshal cfg msg p now clock d s =
                  ground arith in
                subst (IsReported d.email_norm) step (transition-IsReported out r.0 refl)
          ]
        ]

handle-sent :
    (normalize : String → Option String) (marshal : BouncePayload → String) (cfg : HandleConfig)
    (msg : Message) (p : Parsed) (now clock : Time) (tenant_id : String) (d : Delivery)
    (s : BounceData)
    → s.tenant.base.closed ≡ false
    → str_eq p.correlation.delivery_id "" ≡ false
    → is_foreign p tenant_id ≡ false
    → Authentic normalize marshal cfg msg p now clock tenant_id d s
    → handle normalize marshal cfg msg p now clock tenant_id s
      ≡ handle_sent normalize marshal cfg msg p now clock d s
unfolding handle handle_delivery
handle-sent normalize marshal cfg msg p now clock tenant_id d s c z f a = ground arith

-- The answer of the store, as the sender sees it.
abbrev pub answer_of : Result Bool → Answer Bool
answer_of (ok b) = got b
answer_of (err e) = lost false ""

is_suppressed_lem :
    (email : String) (later : Time) (s : BounceData)
    → s.tenant.base.closed ≡ false
    → IsListed email s
    → is_suppressed email later s.tenant.base s.suppressions ≡ ok true
unfolding is_suppressed in_force
is_suppressed_lem email later s c (v, at, x) = ground arith

module _ (normalize : String → Option String) (marshal : BouncePayload → String)
    (cfg : HandleConfig) (msg : Message) (p : Parsed) (now clock : Time) (tenant_id : String)
    (d : Delivery) (s : BounceData) (enabled : cfg.suppression_enabled ≡ true)
    (at : lookup p.correlation.delivery_id s.tenant.base.deliveries ≡ some d)
    (mailed : d.lane ≢ Lane.probe) where
  -- The address is on the tenant's list once the report of its delivery is handled.
  bounced_is_suppressed :
      (r : Handled) (later : Time)
      → handle normalize marshal cfg msg p now clock tenant_id s ≡ r
      → r.outcome.processed ≡ true
      → r.failed ≡ false
      → is_suppressed d.email_norm later r.state.tenant.base r.state.suppressions ≡ ok true
  bounced_is_suppressed r later run done fine =
      let done' : (handle normalize marshal cfg msg p now clock tenant_id s).outcome.processed
          ≡ true =
        ground arith in
      elim (handle_cases normalize marshal cfg msg p now clock tenant_id s) [
        | inl u ↦ absurd (ground arith)
        | inr (d', auth, ended) ↦
            let opened = processed_open normalize marshal cfg msg p now clock tenant_id s done' in
            let same : d' ≡ d = ground arith in
            let auth' =
              subst
                (λ (x : Delivery). Authentic normalize marshal cfg msg p now clock tenant_id x s)
                same auth in
            let step =
              handle-sent normalize marshal cfg msg p now clock tenant_id d s opened.0 opened.1
                (own_tenant normalize marshal cfg msg p tenant_id auth'.2) auth' in
            elim (handle_sent-IsReported normalize marshal cfg msg p now clock enabled d mailed s) [
              | inl x ↦ absurd (ground arith)
              | inr (inl x) ↦ absurd (ground arith)
              | inr (inr x) ↦
                  is_suppressed_lem d.email_norm later r.state (ground arith)
                    (subst (λ (h : Handled). IsListed d.email_norm h.state) (sym step ∙ run) x)
            ]
      ]

  -- A recipient whose mail bounced for good, or who complained, is not mailed again: once the report
  -- of a delivery, not a probe's, has been handled with no failure and has ended it, under a tenant
  -- that keeps a list, then at any later time no delivery to that address, other than a probe, is
  -- offered to a relay by a sender that finds the tenant's list as the report left it.
  pub bounced_not_mailed :
      (r : Handled)
      → handle normalize marshal cfg msg p now clock tenant_id s ≡ r
      → r.outcome.processed ≡ true
      → r.failed ≡ false
      → (config : Config) (tenant system : String) (w : World) (e : Delivery) (settings : Settings)
        (h : HealthTracker) (later : Time)
      → e.email_norm ≡ d.email_norm
      → e.lane ≢ Lane.probe
      → w.settings ≡ got settings
      → settings.suppression_enabled ≡ true
      → w.suppressed
        ≡ answer_of (is_suppressed e.email_norm later r.state.tenant.base r.state.suppressions)
      → offered (process config tenant system w e h).effects ≡ false
  bounced_not_mailed r run done fine config tenant system w e settings h later same lane ws on
        answer =
      suppressed_not_offered config tenant system w e settings h ws on lane (
        answer
        ∙ ap answer_of (
            ap (λ (x : String). is_suppressed x later r.state.tenant.base r.state.suppressions) same
            ∙ bounced_is_suppressed r later run done fine))
