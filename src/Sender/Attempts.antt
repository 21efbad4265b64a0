-- ===== src/Sender/Attempts.antt =====
-- A delivery through its attempts: the worker's decisions, committed by `Complete`.
use sendplane.Common.{
  ℕ, suc, ◌+◌, ◌≤◌, ◌<◌, ◌≡◌, ◌↔◌, String, true, List, [], ◌∷◌, length, leb, if◌then◌else◌, arith,
  All,
}
use sendplane.Store.Enums.{DeliveryStatus, ErrorClass}
use sendplane.Store.Time.{Time}
use sendplane.Store.Delivery.{Delivery}
use sendplane.Memstore.Deliveries.Rows.{truncate_delivery}
use sendplane.Memstore.Deliveries.Complete.{apply_result}
use sendplane.Sender.Policy.{Policy, budget, decide, retry_later}
use sendplane.Sender.Retry.{IsRetryable}
use sendplane.Sender.Results.{Outcome, decided}

decide_retryable :
    (p : Policy) (c : ErrorClass) (n : ℕ) (now : Time)
    → IsRetryable c
    → let r = decide p c n now in
      (r.increment_attempt ≡ true)
      × (r.status
          ≡ (if leb (budget p) (n + 1) then DeliveryStatus.failed else DeliveryStatus.deferred))
unfolding decide retry_later
decide_retryable p ErrorClass.transient n now h = ground arith
decide_retryable p ErrorClass.rate_limited n now h = ground arith
decide_retryable p c n now h = absurd (ground arith)

module _ (worker : String) (pol : Policy) (transport : String) where
  -- One attempt that ends in `f` at `now`, committed.
  abbrev attempted : Outcome → Time → Delivery → Delivery
  attempted f now d = apply_result now (decided worker d pol f now transport) d

  -- A sequence of attempts, each with the time it ended at.
  abbrev pub attempts_on : List (Outcome × Time) → Delivery → Delivery
  attempts_on [] d = d
  attempts_on ((f, now) ∷ fs) d = attempts_on fs (attempted f now d)

  -- A retryable failure uses up one attempt, and ends the delivery when it was the last one.
  attempted_lem :
      (f : Outcome) (now : Time) (d : Delivery)
      → IsRetryable f.class
      → ((attempted f now d).attempt_count ≡ suc d.attempt_count)
        × ((attempted f now d).status ≡ (
            if leb (budget pol) (suc d.attempt_count)
            then DeliveryStatus.failed
            else DeliveryStatus.deferred))
  unfolding apply_result decided truncate_delivery
  attempted_lem f now d h = ground (arith, decide_retryable pol f.class d.attempt_count now h)

  budget_reached : (n : ℕ) → 1 ≤ n → (budget pol ≤ n) ↔ (pol.retry.max_attempts ≤ n)
  unfolding budget
  budget_reached n one = ground arith

  counted :
      (f : Outcome) (now : Time) (fs : List (Outcome × Time)) (d : Delivery)
      → All (λ e. IsRetryable e.0.class) ((f, now) ∷ fs)
      → let r = attempts_on ((f, now) ∷ fs) d in
        let n = d.attempt_count + suc (length fs) in
        (r.attempt_count ≡ n)
        × ((r.status ≡ DeliveryStatus.failed) ↔ (budget pol ≤ n))
        × ((r.status ≡ DeliveryStatus.deferred) ↔ (n < budget pol))
  counted f now [] d h = ground (arith, attempted_lem f now d h.0)
  counted f now ((g, later) ∷ fs) d h =
      ground (arith, attempted_lem f now d h.0, counted g later fs (attempted f now d) h.1)

  -- After one or more attempts that all end in a retryable failure (transient or rate limited), the
  -- attempt count has grown by their number; the delivery is failed exactly if the count has reached
  -- the attempts that the retry policy allows, and else it is deferred, to be claimed again.
  pub retry_budget :
      (f : Outcome) (now : Time) (fs : List (Outcome × Time)) (d : Delivery)
      → All (λ e. IsRetryable e.0.class) ((f, now) ∷ fs)
      → let r = attempts_on ((f, now) ∷ fs) d in
        let n = d.attempt_count + suc (length fs) in
        (r.attempt_count ≡ n)
        × ((r.status ≡ DeliveryStatus.failed) ↔ (pol.retry.max_attempts ≤ n))
        × ((r.status ≡ DeliveryStatus.deferred) ↔ (n < pol.retry.max_attempts))
  retry_budget f now fs d h =
      let n = d.attempt_count + suc (length fs) in
      ground (arith, counted f now fs d h, budget_reached n (omega arith))
