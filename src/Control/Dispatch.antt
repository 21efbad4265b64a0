-- ===== src/Control/Dispatch.antt =====
-- internal/control/outbox.go: the dispatcher, which hands an event to the host's sink and records the
-- outcome. The sink's answer is an argument: `none`, or the text of its error as it is stored.
use sendplane.Common.{
  ℕ, suc, ◌+◌, ◌-◌, String, List, [], ◌∷◌, Option, none, some, if◌then◌else◌, ltb, ◌==◌, length,
}
use sendplane.Store.Errors.{Result, ok, err}
use sendplane.Store.Time.{Time, Duration, zero_time, minute, truncate_time}
use sendplane.Store.Campaign.{OutboxEvent}
use sendplane.Memstore.Tenant.{Tenant}
use sendplane.Memstore.Outbox.{mark_delivered, mark_failed}
use sendplane.Sender.Policy.{entry}
use sendplane.Sender.Results.{subscribed_to}

pub record DispatchConfig : Type 0 where
  pub outbox_max_attempts : ℕ
  pub outbox_backoff : List Duration

-- backoffFor: the wait after the n-th failure.
unfoldable pub backoff_for : List Duration → ℕ → Duration
backoff_for schedule n =
    if length schedule == 0
    then minute
    else let first = if ltb n 1 then 1 else n in
      let last = if ltb (length schedule) first then length schedule else first in
      entry schedule (last - 1)

-- An error of the store is logged, and the data stays.
abbrev pub or_kept : Tenant → Result Tenant → Tenant
or_kept s (ok t) = t
or_kept s (err e) = s

-- The next attempt after a failure: none when the attempts are used up.
unfoldable pub next_dispatch : DispatchConfig → ℕ → Time → Time
next_dispatch cfg attempts now =
    if ltb (suc attempts) cfg.outbox_max_attempts
    then now + backoff_for cfg.outbox_backoff (suc attempts)
    else zero_time

-- outboxDispatcher.dispatch
unfoldable pub dispatch :
    DispatchConfig → OutboxEvent → Option String → Time → Time → Tenant → Tenant
unfolding next_dispatch
dispatch cfg ev none now clock s = or_kept s (mark_delivered ev.id (truncate_time clock) s)
dispatch cfg ev (some msg) now clock s =
    or_kept s (mark_failed ev.id (next_dispatch cfg ev.attempts now) msg s)

-- outboxDispatcher.subscribed: the events to dispatch, and the data with the others retired.
unfoldable pub subscribed :
    List String → Time → List OutboxEvent → Tenant → List OutboxEvent × Tenant
subscribed types clock [] s = ([], s)
subscribed types clock (ev ∷ events) s =
    if subscribed_to types ev.kind
    then (let rest = subscribed types clock events s in (ev ∷ rest.0, rest.1))
    else subscribed types clock events (or_kept s (mark_delivered ev.id (truncate_time clock) s))
