-- ===== src/Sender/Retry.antt =====
-- The retry budget: how often a delivery comes back, and when.
use sendplane.Common.{ℕ, ◌+◌, ◌≤◌, ◌<◌, ◌≡◌, ◌⊎◌, ◌↔◌, true, arith}
use sendplane.Store.Enums.{DeliveryStatus, ErrorClass}
use sendplane.Store.Time.{Time}
use sendplane.Sender.Policy.{Policy, budget, retry_later, decide}

-- A failure that consumes an attempt.
abbrev pub IsRetryable : ErrorClass → Type 0
IsRetryable ErrorClass.transient = Unit {0}
IsRetryable ErrorClass.rate_limited = Unit {0}
IsRetryable _ = ⊥

-- `Decide` on every class: an attempt is consumed exactly by the retryable failures; a delivery
-- fails exactly on a permanent or policy failure, or on the retryable failure that uses up the
-- budget; an auth failure leaves it queued; and only a success is sent.
pub decide_cases :
    (p : Policy) (c : ErrorClass) (n : ℕ) (now : Time)
    → let r = decide p c n now in
      ((r.increment_attempt ≡ true) ↔ IsRetryable c)
      × ((r.status ≡ DeliveryStatus.sent) ↔ (c ≡ ErrorClass.none))
      × ((r.status ≡ DeliveryStatus.queued) ↔ (c ≡ ErrorClass.auth))
      × ((r.status ≡ DeliveryStatus.deferred) ↔ (IsRetryable c × (n + 1 < budget p)))
      × ((r.status ≡ DeliveryStatus.failed) ↔ (
          (c ≡ ErrorClass.permanent)
          ⊎ (c ≡ ErrorClass.policy)
          ⊎ (IsRetryable c × (budget p ≤ n + 1))))
unfolding decide retry_later
decide_cases p ErrorClass.none n now = ground arith
decide_cases p ErrorClass.transient n now = ground arith
decide_cases p c n now = ground arith
