-- ===== src/Memstore/Events.antt =====
-- What the outbox repository promises the dispatcher: an event is under one live lease, and an event
-- that is still owed to the host is never deleted.
use sendplane.Common.{
  ℕ, ◌+◌, ◌≤◌, ◌<◌, String, ◌≡◌, refl, sym, ap, ◌∙◌, ◌≢◌, true, false, List, [], ◌∷◌, none, some,
  eq_iff, if◌then◌else◌, arith, Map, IsMap, lookup, adjust_all, delete, keys, contains, count,
  lookup-adjust_all, lookup-delete, picked, passes_of_picked, count-picked-le_one, found,
  keys-adjust_all, subst,
}
use sendplane.Store.Errors.{ok}
use sendplane.Store.Time.{Time, Duration, truncate_time}
use sendplane.Store.Campaign.{OutboxEvent, OutboxStatus}
use sendplane.Memstore.Tenant.{Tenant}
use sendplane.Memstore.Outbox.{
  claimable_event, leased_event, claimed_events, claim_pending, retired_event, delete_events,
  delete_events_before,
}

lookup-delete_events :
    (ids : List String) (k : String) (m : Map OutboxEvent)
    → lookup k (delete_events ids m) ≡ (if contains ids k then none else lookup k m)
unfolding delete_events
lookup-delete_events [] k m = refl
lookup-delete_events (id ∷ ids) k m =
    ground (arith, lookup-delete_events ids k (delete id m), lookup-delete id k m)

-- What a deletion leaves.
delete_events_before_inv :
    (cutoff : Time) (limit : ℕ) (s t : Tenant) (n : ℕ)
    → delete_events_before cutoff limit s ≡ ok (t, n)
    → t.outbox
      ≡ delete_events (picked (retired_event (truncate_time cutoff)) limit s.outbox) s.outbox
unfolding delete_events_before
delete_events_before_inv cutoff limit s t n ran = ground arith

not_retired :
    (cutoff : Time) (limit : ℕ) (m : Map OutboxEvent) (k : String) (e : OutboxEvent)
    → IsMap m
    → lookup k m ≡ some e
    → e.status ≡ OutboxStatus.pending
    → contains (picked (retired_event cutoff) limit m) k ≡ false
unfolding retired_event
not_retired cutoff limit m k e once at owed =
    ground (arith, passes_of_picked (retired_event cutoff) limit m k (once k))

-- Retention keeps every pending event as it is, whatever its age and the limit of the call.
retention_keeps_pending :
    (cutoff : Time) (limit : ℕ) (s t : Tenant) (n : ℕ) (k : String) (e : OutboxEvent)
    → IsMap s.outbox
    → delete_events_before cutoff limit s ≡ ok (t, n)
    → lookup k s.outbox ≡ some e
    → e.status ≡ OutboxStatus.pending
    → lookup k t.outbox ≡ some e
retention_keeps_pending cutoff limit s t n k e m ran at owed =
    let ids = picked (retired_event (truncate_time cutoff)) limit s.outbox in
    ap (lookup k) (delete_events_before_inv cutoff limit s t n ran)
    ∙ lookup-delete_events ids k s.outbox
    ∙ ap (λ b. if b then none else lookup k s.outbox)
        (not_retired (truncate_time cutoff) limit s.outbox k e m at owed)
    ∙ at

claim_pending_inv :
    (limit : ℕ) (lease : Duration) (owner : String) (now : Time) (s t : Tenant)
    (es : List OutboxEvent)
    → claim_pending limit lease owner now s ≡ ok (t, es)
    → t.outbox
      ≡ adjust_all
          (claimed_events limit (truncate_time now) s.outbox)
          (leased_event owner (truncate_time now + lease))
          s.outbox
unfolding claim_pending
claim_pending_inv limit lease owner now s t es ran = ground arith

-- Under a live lease of some owner, an event cannot be claimed.
leased_unclaimable :
    (later : Time) (id owner : String) (until : Time) (e : OutboxEvent)
    → owner ≢ ""
    → later < truncate_time until
    → claimable_event later id (leased_event owner until e) ≡ false
unfolding claimable_event leased_event
leased_unclaimable later id owner until e named early = ground (arith, eq_iff owner "")

-- An event that a claim has taken for a named owner is not taken by another claim, whatever its
-- limit, before the end of the lease.
pub event_claim_exclusive :
    (limit again : ℕ) (lease : Duration) (owner : String) (now later : Time) (s t : Tenant)
    (es : List OutboxEvent) (k : String)
    → IsMap s.outbox
    → owner ≢ ""
    → truncate_time later < truncate_time (truncate_time now + lease)
    → claim_pending limit lease owner now s ≡ ok (t, es)
    → contains (claimed_events limit (truncate_time now) s.outbox) k ≡ true
    → contains (claimed_events again (truncate_time later) t.outbox) k ≡ false
unfolding claimed_events
event_claim_exclusive limit again lease owner now later s t es k m named early ran taken =
    let p = claimable_event (truncate_time now) in
    let q = claimable_event (truncate_time later) in
    let f = leased_event owner (truncate_time now + lease) in
    let ids = picked p limit s.outbox in
    let rows = adjust_all ids f s.outbox in
    let once : count k (keys rows) ≤ 1 =
      subst (λ ks. count k ks ≤ 1) (sym (keys-adjust_all ids f s.outbox)) (m k) in
    let (e, at, passes) =
      found (lookup k s.outbox) (p k) (passes_of_picked p limit s.outbox k (m k) taken) in
    let now_at : lookup k rows ≡ some (f e) =
      lookup-adjust_all ids f s.outbox k (count-picked-le_one p limit s.outbox k (m k))
      ∙ ground arith in
    ap (λ o. contains (claimed_events again (truncate_time later) o) k)
      (claim_pending_inv limit lease owner now s t es ran)
    ∙ ground (
      arith,
      passes_of_picked q again rows k once,
      leased_unclaimable (truncate_time later) k owner (truncate_time now + lease) e named early,
    )
