-- ===== src/Control/DeadLetter.antt =====
-- The attempts of an event: when it is tried again, and when it becomes a dead letter.
use sendplane.Common.{
  ℕ, suc, ◌+◌, ◌≤◌, ◌<◌, String, ◌≡◌, refl, ap, subst, ◌∙◌, ◌↔◌, false, List, [], ◌∷◌, none, some,
  arith, length, All, lookup, adjust, lookup_adjusted,
}
use sendplane.Store.Time.{Time}
use sendplane.Store.Campaign.{OutboxEvent, OutboxStatus}
use sendplane.Memstore.Tenant.{Tenant}
use sendplane.Memstore.Outbox.{mark_failed, on_event, failed_event}
use sendplane.Control.Dispatch.{DispatchConfig, dispatch, next_dispatch, or_kept}

module _ (cfg : DispatchConfig) (id : String) where
  -- A failed dispatch of the event with an ID, as it is stored.
  abbrev failed_once : String → Time → Tenant → Tenant
  failed_once msg now s = elim (lookup id s.outbox) [
    | none ↦ s
    | some e ↦ dispatch cfg e (some msg) now now s
  ]

  -- A sequence of failed dispatches, each with its error and time.
  abbrev pub failed_dispatches : List (String × Time) → Tenant → Tenant
  failed_dispatches [] s = s
  failed_dispatches ((msg, now) ∷ fs) s = failed_dispatches fs (failed_once msg now s)

  on_event_lem :
      (f : OutboxEvent → OutboxEvent) (s : Tenant) (e : OutboxEvent)
      → s.base.closed ≡ false
      → lookup id s.outbox ≡ some e
      → or_kept s (on_event id f s) ≡ record s { outbox = adjust id f s.outbox }
  unfolding on_event
  on_event_lem f s e live at = ground arith

  failed_once_lem :
      (msg : String) (now : Time) (s : Tenant) (e : OutboxEvent)
      → s.base.closed ≡ false
      → lookup id s.outbox ≡ some e
      → e.id ≡ id
      → failed_once msg now s ≡ record s {
        outbox = adjust id (failed_event (next_dispatch cfg e.attempts now) msg) s.outbox;
      }
  unfolding dispatch mark_failed
  failed_once_lem msg now s e live at own =
      ap (λ o. elim o [ none ↦ s | some x ↦ dispatch cfg x (some msg) now now s ]) at
      ∙ ap (λ k. or_kept s (on_event k (failed_event (next_dispatch cfg e.attempts now) msg) s)) own
      ∙ on_event_lem (failed_event (next_dispatch cfg e.attempts now) msg) s e live at

  -- A failure at a time after the zero time uses up one attempt, and makes the event a dead letter
  -- exactly if it was the last.
  failed_event_lem :
      (msg : String) (now : Time) (e : OutboxEvent)
      → 0 < now
      → let r = failed_event (next_dispatch cfg e.attempts now) msg e in
        (r.id ≡ e.id)
        × (r.attempts ≡ suc e.attempts)
        × ((r.status ≡ OutboxStatus.failed) ↔ (cfg.outbox_max_attempts ≤ suc e.attempts))
        × ((r.status ≡ OutboxStatus.pending) ↔ (suc e.attempts < cfg.outbox_max_attempts))
  unfolding failed_event next_dispatch
  failed_event_lem msg now e later = ground arith

  -- An event at the end of its failed dispatches.
  abbrev pub IsTried : OutboxEvent → ℕ → Type 0
  IsTried r n =
      (r.attempts ≡ n)
      × ((r.status ≡ OutboxStatus.failed) ↔ (cfg.outbox_max_attempts ≤ n))
      × ((r.status ≡ OutboxStatus.pending) ↔ (n < cfg.outbox_max_attempts))

  IsTried-from :
      (fs : List (String × Time)) (s : Tenant) (e : OutboxEvent) (n : ℕ)
      → s.base.closed ≡ false
      → lookup id s.outbox ≡ some e
      → e.id ≡ id
      → IsTried e n
      → All (λ f. 0 < f.1) fs
      → (r : OutboxEvent) × (lookup id (failed_dispatches fs s).outbox ≡ some r)
        × IsTried r (n + length fs)
  IsTried-from [] s e n live at own tried times = (e, at, subst (IsTried e) (omega arith) tried)
  IsTried-from ((msg, now) ∷ fs) s e n live at own tried times =
      let f = failed_event (next_dispatch cfg e.attempts now) msg in
      let t : Tenant = record s { outbox = adjust id f s.outbox } in
      let once = failed_event_lem msg now e times.0 in
      let here : IsTried (f e) (suc n) = ground arith in
      let (r, there, ends) =
        IsTried-from fs t (f e) (suc n) live (lookup_adjusted id id f s.outbox e refl at)
          (once.0 ∙ own) here times.1 in
      (
        r,
        ap (λ u. lookup id (failed_dispatches fs u).outbox)
              (failed_once_lem msg now s e live at own)
            ∙ there,
        subst (IsTried r) (omega arith) ends,
      )

  -- After one or more dispatches in a row that fail, at times after the zero time, the event's
  -- attempts have grown by their number; it is a dead letter exactly if they have reached the
  -- configured maximum, and else it is pending, to be tried again.
  pub dead_letter_iff :
      (msg : String) (now : Time) (fs : List (String × Time)) (s : Tenant) (e : OutboxEvent)
      → s.base.closed ≡ false
      → lookup id s.outbox ≡ some e
      → e.id ≡ id
      → All (λ f. 0 < f.1) ((msg, now) ∷ fs)
      → (r : OutboxEvent) × (lookup id (failed_dispatches ((msg, now) ∷ fs) s).outbox ≡ some r)
        × IsTried r (e.attempts + suc (length fs))
  dead_letter_iff msg now fs s e live at own times =
      let f = failed_event (next_dispatch cfg e.attempts now) msg in
      let t : Tenant = record s { outbox = adjust id f s.outbox } in
      let once = failed_event_lem msg now e times.0 in
      let (r, there, ends) =
        IsTried-from fs t (f e) (suc e.attempts) live (lookup_adjusted id id f s.outbox e refl at)
          (once.0 ∙ own) (once.1, once.2, once.3) times.1 in
      (
        r,
        ap (λ u. lookup id (failed_dispatches fs u).outbox)
              (failed_once_lem msg now s e live at own)
            ∙ there,
        subst (IsTried r) (omega arith) ends,
      )
