-- ===== src/Sender/Circuit.antt =====
-- When the circuit of a transport opens, cools down and closes.
use sendplane.Common.{
  ℕ, suc, ◌+◌, ◌-◌, ◌≤◌, ◌<◌, String, ◌≡◌, refl, ◌↔◌, ◌&&◌, not, List, [], ◌∷◌, some, length,
  select, arith, All, Map, matching, values, length-append,
}
use sendplane.Store.Enums.{TransportStatus, ErrorClass}
use sendplane.Store.Time.{Time, before}
use sendplane.Sender.Health.{
  TransportHealth, HealthTracker, prune_rate_limits, fail_rate_limited, fail_health, success_health,
  probe_due, due,
}

module _ (h : HealthTracker) where
  -- What `process` reports of a send that ended in a class.
  abbrev pub observed : ErrorClass → Time → TransportHealth → TransportHealth
  observed ErrorClass.none now th = (success_health h now th).0
  observed ErrorClass.auth now th = (fail_health h ErrorClass.auth now th).0
  observed ErrorClass.rate_limited now th = (fail_health h ErrorClass.rate_limited now th).0
  observed _ now th = th

  abbrev pub observed_all : List (ErrorClass × Time) → TransportHealth → TransportHealth
  observed_all [] th = th
  observed_all ((c, now) ∷ cs) th = observed_all cs (observed c now th)

  -- The auth failures since the last success, after `n` of them.
  abbrev pub auth_run : ℕ → List (ErrorClass × Time) → ℕ
  auth_run n [] = n
  auth_run n ((ErrorClass.none, now) ∷ cs) = auth_run 0 cs
  auth_run n ((ErrorClass.auth, now) ∷ cs) = auth_run (suc n) cs
  auth_run n ((_, now) ∷ cs) = auth_run n cs

  abbrev IsCircuit : ℕ → TransportHealth → Type 0
  IsCircuit n th = (th.failures ≡ n) × ((th.status ≡ TransportStatus.unhealthy) ↔ (h.threshold ≤ n))

  -- A rate limited reply turns the status to cooldown exactly if the transport is healthy and the
  -- replies in the window, this one included, reach the threshold.
  cooldown_needs_burst :
      (now : Time) (th : TransportHealth)
      → ((fail_health h ErrorClass.rate_limited now th).1 ≡ some TransportStatus.cooldown) ↔ (
          (th.status ≡ TransportStatus.healthy)
          × (h.rate_limit_threshold
              ≤ suc (length (prune_rate_limits th.rate_limits now h.rate_limit_window))))
  unfolding fail_health fail_rate_limited
  cooldown_needs_burst now th =
      ground
        (arith, length-append (prune_rate_limits th.rate_limits now h.rate_limit_window) (now ∷ []))

  pruned_nothing :
      (ts : List Time) (cut : Time)
      → (length (select (λ t. not (before t cut)) ts) ≡ 0) ↔ All (λ t. t < cut) ts
  pruned_nothing [] cut = ground arith
  pruned_nothing (t ∷ ts) cut = ground (arith, pruned_nothing ts cut)

  -- A success ends a cooldown exactly if every rate limited reply on record is older than the
  -- window.
  cooldown_ends :
      (now : Time) (th : TransportHealth)
      → th.status ≡ TransportStatus.cooldown
      → ((success_health h now th).1 ≡ some TransportStatus.healthy)
        ↔ All (λ t. t < now - h.rate_limit_window) th.rate_limits
  unfolding success_health prune_rate_limits
  cooldown_ends now th c = ground (arith, pruned_nothing th.rate_limits (now - h.rate_limit_window))

-- The targets of the transports of a map that pass a test.
abbrev pub targets_of : List TransportHealth → List (String × String)
targets_of [] = []
targets_of (th ∷ ths) = (th.tenant_id, th.transport_id) ∷ targets_of ths

due_once_from :
    (h : HealthTracker) (now later : Time) (m : Map TransportHealth)
    → now ≤ later
    → later < now + h.probe_every
    → (due later (due now (record h { transports = m })).0).1
      ≡ targets_of (values (matching (λ k th. not (probe_due now th) && probe_due later th) m))
unfolding due probe_due matching
due_once_from h now later [] le lt = refl
due_once_from h now later ((k, th) ∷ m) le lt = ground (arith, due_once_from h now later m le lt)

-- A pass over the due probes, less than a probe interval after an earlier pass, lists exactly the
-- transports that are due now and were not due then: nothing is probed twice in an interval.
due_once :
    (h : HealthTracker) (now later : Time)
    → now ≤ later
    → later < now + h.probe_every
    → (due later (due now h).0).1
      ≡ targets_of
          (values (matching (λ k th. not (probe_due now th) && probe_due later th) h.transports))
due_once h now later le lt = due_once_from h now later h.transports le lt
