-- ===== src/Bounce/Retained.antt =====
-- internal/bounce and internal/control/maintenance.go: an address stays on the list that a bounce put
-- it on, through the ticks of the retention.
use sendplane.Common.{
  ℕ, ℤ, ◌≤◌, String, ◌≡◌, ◌≢◌, refl, ap, ◌∙◌, Bool, true, false, List, [], ◌∷◌, Option, some, IsMap,
  All, lookup,
}
use sendplane.Store.Enums.{Lane}
use sendplane.Store.Errors.{Result}
use sendplane.Store.Time.{Time}
use sendplane.Store.Delivery.{Delivery}
use sendplane.Memstore.{TenantData}
use sendplane.Memstore.Suppressions.{is_suppressed}
use sendplane.Sender.Process.{World, Config, Settings, process, got}
use sendplane.Sender.Outcomes.{offered}
use sendplane.Sender.Health.{HealthTracker}
use sendplane.Control.Maintenance.{RetentionConfig, RetainedRows, retention_tick}
use sendplane.Control.Expiry.{retention_keeps_answers, tick-IsMap}
use sendplane.Bounce.Types.{BouncePayload, Parsed, Message, BounceData, HandleConfig, Handled}
use sendplane.Bounce.Handle.{handle}
use sendplane.Bounce.Listed.{answer_of, bounced_not_mailed}

-- The settings, the pages and the time of a tick.
pub record Tick : Type 0 where
  pub days : Result ℤ
  pub pages : ℕ
  pub now : Time

module _ (cfg : RetentionConfig) (page_done : ℕ → Bool) (chunk_done : String → ℕ → Bool) where
  -- Tick after tick, whatever the end of each.
  unfoldable pub run_ticks : List Tick → RetainedRows → RetainedRows
  run_ticks [] s = s
  run_ticks (t ∷ ts) s =
      run_ticks ts (retention_tick cfg page_done chunk_done t.days t.pages t.now s).0

  run_ticks_answer :
      (ts : List Tick) (later : Time) (s : RetainedRows) (k : String) (base : TenantData)
      → IsMap s.suppressions
      → All (λ t. t.now ≤ later) ts
      → is_suppressed k later base (run_ticks ts s).suppressions
        ≡ is_suppressed k later base s.suppressions
  unfolding run_ticks
  run_ticks_answer [] later s k base m h = refl
  run_ticks_answer (t ∷ ts) later s k base m h =
      let next = (retention_tick cfg page_done chunk_done t.days t.pages t.now s).0 in
      run_ticks_answer ts later next k base
        (tick-IsMap cfg page_done chunk_done t.days t.pages t.now s m) h.1
      ∙ retention_keeps_answers cfg page_done chunk_done t.days t.pages t.now later s k base m h.0

  -- The retention does not undo a bounce: once the report of a delivery, not a probe's, has been handled
  -- with no failure and has ended it, under a tenant that keeps a list, then after any ticks of the
  -- retention, whatever each of them does or fails in, no delivery to that address, other than a probe,
  -- is offered to a relay by a sender that finds the list as the last tick left it, at no earlier time
  -- than the ticks.
  pub bounced_not_mailed_again :
      (normalize : String → Option String) (marshal : BouncePayload → String) (hcfg : HandleConfig)
      (msg : Message) (p : Parsed) (now clock : Time) (tenant_id : String) (d : Delivery)
      (s : BounceData)
      → hcfg.suppression_enabled ≡ true
      → lookup p.correlation.delivery_id s.tenant.base.deliveries ≡ some d
      → d.lane ≢ Lane.probe
      → (r : Handled) → handle normalize marshal hcfg msg p now clock tenant_id s ≡ r
      → r.outcome.processed ≡ true
      → r.failed ≡ false
      → (kept : RetainedRows) (ticks : List Tick) (later : Time)
      → kept.suppressions ≡ r.state.suppressions
      → IsMap kept.suppressions
      → All (λ t. t.now ≤ later) ticks
      → (config : Config) (tenant system : String) (w : World) (e : Delivery) (settings : Settings)
        (h : HealthTracker)
      → e.email_norm ≡ d.email_norm
      → e.lane ≢ Lane.probe
      → w.settings ≡ got settings
      → settings.suppression_enabled ≡ true
      → w.suppressed
        ≡ answer_of (
            is_suppressed e.email_norm later r.state.tenant.base
              (run_ticks ticks kept).suppressions)
      → offered (process config tenant system w e h).effects ≡ false
  bounced_not_mailed_again normalize marshal hcfg msg p now clock tenant_id d s enabled at mailed r
        run done fine kept ticks later same m past config tenant system w e settings h to lane ws on
        answer =
      bounced_not_mailed normalize marshal hcfg msg p now clock tenant_id d s enabled at mailed r
        run done fine config tenant system w e settings h later to lane ws on
        (answer
          ∙ ap answer_of (
              run_ticks_answer ticks later kept e.email_norm r.state.tenant.base m past
              ∙ ap (is_suppressed e.email_norm later r.state.tenant.base) same))
