-- ===== src/Memstore/Outbox.antt =====
-- store/memstore/repos.go: the outbox repository, which queues events for the host.
use sendplane.Common.{
  ℕ, suc, ◌+◌, String, Bool, true, false, ◌&&◌, ◌||◌, not, List, [], ◌∷◌, none, some, str_eq,
  if◌then◌else◌, Map, lookup, insert, adjust, adjust_all, delete, keys, matching, sort_strings,
  limited, length,
}
use sendplane.Store.Errors.{Result, StoreError, ok, err, ◌>>◌}
use sendplane.Store.Time.{Time, Duration, zero_time, is_zero, before, after, truncate_time}
use sendplane.Store.Campaign.{OutboxEvent, OutboxStatus}
use sendplane.Memstore.{check, id_or_new, issued_for}
use sendplane.Memstore.Tenant.{Tenant}

abbrev pub is_pending : OutboxStatus → Bool
is_pending OutboxStatus.pending = true
is_pending _ = false

-- The row as it is stored.
unfoldable pub queued_event : Tenant → Time → OutboxEvent → OutboxEvent
queued_event s now e =
    let created = if is_zero e.created_at then now else e.created_at in
    record e {
      id = id_or_new s.base e.id;
      tenant_id = s.base.tenant;
      status = OutboxStatus.pending;
      created_at = truncate_time created;
      next_attempt_at =
          truncate_time (if is_zero e.next_attempt_at then created else e.next_attempt_at);
      lease_until = truncate_time e.lease_until;
      delivered_at = truncate_time e.delivered_at;
    }

unfoldable pub enqueue_one : Time → OutboxEvent → Tenant → Tenant
enqueue_one now e s = record s {
  base = record s.base { issued = issued_for s.base e.id };
  outbox = insert (id_or_new s.base e.id) (queued_event s now e) s.outbox;
}

unfoldable pub enqueue_all : Time → List OutboxEvent → Tenant → Tenant
enqueue_all now [] s = s
enqueue_all now (e ∷ es) s = enqueue_all now es (enqueue_one now e s)

unfoldable pub enqueue : List OutboxEvent → Time → Tenant → Result Tenant
enqueue es clock s = do check s.base; ok (enqueue_all (truncate_time clock) es s)

-- An event that `ClaimPending` takes: pending, due, and under no live lease.
unfoldable pub claimable_event : Time → String → OutboxEvent → Bool
claimable_event now id e =
    if not (is_pending e.status) || after e.next_attempt_at now
    then false
    else not (not (str_eq e.lease_owner "") && after e.lease_until now)

unfoldable pub leased_event : String → Time → OutboxEvent → OutboxEvent
leased_event owner until e = record e { lease_owner = owner; lease_until = truncate_time until }

unfoldable pub claimed_events : ℕ → Time → Map OutboxEvent → List String
claimed_events limit now outbox =
    limited limit (sort_strings (keys (matching (claimable_event now) outbox)))

events_at : List String → Map OutboxEvent → List OutboxEvent
events_at [] m = []
events_at (id ∷ ids) m = elim (lookup id m) [
  | none ↦ events_at ids m
  | some e ↦ e ∷ events_at ids m
]

unfoldable pub claim_pending :
    ℕ → Duration → String → Time → Tenant → Result (Tenant × List OutboxEvent)
unfolding events_at
claim_pending limit lease owner now s = do
  check s.base
  let ids = claimed_events limit (truncate_time now) s.outbox
  let outbox = adjust_all ids (leased_event owner (truncate_time now + lease)) s.outbox
  ok (record s { outbox = outbox }, events_at ids outbox)

unfoldable pub get_event : String → Tenant → Result OutboxEvent
get_event id s = do
  check s.base
  elim (lookup id s.outbox) [ none ↦ err StoreError.err_not_found | some e ↦ ok e ]

-- The four verbs on one event change the row that is there.
unfoldable pub on_event : String → (OutboxEvent → OutboxEvent) → Tenant → Result Tenant
on_event id f s = do
  check s.base
  elim (lookup id s.outbox) [
    | none ↦ err StoreError.err_not_found
    | some e ↦ ok (record s { outbox = adjust id f s.outbox })
  ]

unfoldable pub reset_event : Time → OutboxEvent → OutboxEvent
reset_event now e = record e {
  status = OutboxStatus.pending;
  attempts = 0;
  last_error = "";
  next_attempt_at = truncate_time now;
  lease_owner = "";
  lease_until = zero_time;
  delivered_at = zero_time;
}

unfoldable pub reset : String → Time → Tenant → Result Tenant
reset id now s = on_event id (reset_event now) s

unfoldable pub delivered_event : Time → OutboxEvent → OutboxEvent
delivered_event at e = record e {
  status = OutboxStatus.delivered;
  delivered_at = truncate_time at;
  lease_owner = "";
  lease_until = zero_time;
}

unfoldable pub mark_delivered : String → Time → Tenant → Result Tenant
mark_delivered id at s = on_event id (delivered_event at) s

-- An empty next attempt moves the event to the dead letter state.
unfoldable pub failed_event : Time → String → OutboxEvent → OutboxEvent
failed_event next_attempt msg e = record e {
  attempts = suc e.attempts;
  last_error = msg;
  lease_owner = "";
  lease_until = zero_time;
  status = if is_zero next_attempt then OutboxStatus.failed else OutboxStatus.pending;
  next_attempt_at = if is_zero next_attempt then e.next_attempt_at else truncate_time next_attempt;
}

unfoldable pub mark_failed : String → Time → String → Tenant → Result Tenant
mark_failed id next_attempt msg s = on_event id (failed_event next_attempt msg) s

unfoldable pub retired_event : Time → String → OutboxEvent → Bool
retired_event cutoff id e =
    if not (before e.created_at cutoff) then false else not (is_pending e.status)

unfoldable pub delete_events : List String → Map OutboxEvent → Map OutboxEvent
delete_events [] m = m
delete_events (id ∷ ids) m = delete_events ids (delete id m)

unfoldable pub delete_events_before : Time → ℕ → Tenant → Result (Tenant × ℕ)
delete_events_before cutoff limit s = do
  check s.base
  let ids =
      limited limit (sort_strings (keys (matching (retired_event (truncate_time cutoff)) s.outbox)))
  ok (record s { outbox = delete_events ids s.outbox }, length ids)
