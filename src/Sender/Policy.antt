-- ===== src/Sender/Policy.antt =====
-- internal/sender/policy.go: what happens to a delivery after one attempt. The floats of the
-- jitter are exact fractions here: a jitter of 0.2 is 1/5, and a random value in [0,1) is a
-- numerator below its denominator; the rounding of float64 is not modelled.
use sendplane.Common.{
  ℕ, zero, suc, ◌+◌, ◌-◌, ◌*◌, ◌/◌, Bool, true, false, ◌&&◌, ◌||◌, List, [], ◌∷◌, length, leb, ltb,
  ◌==◌, if◌then◌else◌,
}
use sendplane.Store.Enums.{DeliveryStatus, ErrorClass, class_eq}
use sendplane.Store.Time.{Time, Duration, minute, zero_time}

pub record Fraction : Type 0 where
  pub num : ℕ
  pub den : ℕ

-- store.RetryPolicy
pub record RetryPolicy : Type 0 where
  pub max_attempts : ℕ
  pub backoff : List Duration

pub record Decision : Type 0 where
  pub status : DeliveryStatus
  pub next_attempt_at : Time
  pub increment_attempt : Bool
  pub record_attempt : Bool

-- `rand` is the value that the source of randomness returns for this decision.
pub record Policy : Type 0 where
  pub retry : RetryPolicy
  pub rate_limit_cap : Duration
  pub auth_retry_after : Duration
  pub jitter : Fraction
  pub rand : Fraction

unfoldable pub default_policy : RetryPolicy → Fraction → Policy
default_policy retry rand = record {
  retry = retry;
  rate_limit_cap = 5 * minute;
  auth_retry_after = minute;
  jitter = record { num = 1; den = 5 };
  rand = rand;
}

-- The entry at an index that is in range.
abbrev pub entry : List Duration → ℕ → Duration
entry [] i = 0
entry (d ∷ ds) zero = d
entry (d ∷ ds) (suc i) = entry ds i

-- `i := n - 1`, held between 0 and the last index.
unfoldable pub backoff : Policy → ℕ → Duration
backoff p n =
    let b = p.retry.backoff in
    if length b == 0
    then minute
    else if leb (length b) (n - 1)
    then entry b (length b - 1)
    else entry b (n - 1)

-- `factor = 1 + jitter * (2 * rand - 1)`, over the common denominator.
unfoldable pub jittered : Policy → Duration → Duration
jittered p d =
    let jn = p.jitter.num in
    let jd = p.jitter.den in
    let rn = p.rand.num in
    let rd = p.rand.den in
    if jn == 0 || d == 0
    then d
    else if ltb (jd * rd + jn * (2 * rn)) (jn * rd)
    then 0
    else d * (jd * rd + jn * (2 * rn) - jn * rd) / (jd * rd)

-- `max`, at least one attempt.
unfoldable pub budget : Policy → ℕ
budget p = if p.retry.max_attempts == 0 then 1 else p.retry.max_attempts

-- The transient and the rate limited case.
unfoldable pub retry_later : Policy → ErrorClass → ℕ → Time → Decision
retry_later p class attempt_count now =
    let consumed = attempt_count + 1 in
    let d = backoff p consumed in
    let capped =
      if class_eq class ErrorClass.rate_limited && ltb 0 p.rate_limit_cap && ltb p.rate_limit_cap d
      then p.rate_limit_cap
      else d in
    if leb (budget p) consumed
    then record {
      status = DeliveryStatus.failed;
      next_attempt_at = zero_time;
      increment_attempt = true;
      record_attempt = true;
    }
    else record {
      status = DeliveryStatus.deferred;
      next_attempt_at = now + jittered p capped;
      increment_attempt = true;
      record_attempt = true;
    }

unfoldable pub decide : Policy → ErrorClass → ℕ → Time → Decision
decide p ErrorClass.none attempt_count now = record {
  status = DeliveryStatus.sent;
  next_attempt_at = zero_time;
  increment_attempt = false;
  record_attempt = true;
}
decide p ErrorClass.transient attempt_count now =
    retry_later p ErrorClass.transient attempt_count now
decide p ErrorClass.rate_limited attempt_count now =
    retry_later p ErrorClass.rate_limited attempt_count now
decide p ErrorClass.permanent attempt_count now = record {
  status = DeliveryStatus.failed;
  next_attempt_at = zero_time;
  increment_attempt = false;
  record_attempt = true;
}
decide p ErrorClass.policy attempt_count now = record {
  status = DeliveryStatus.failed;
  next_attempt_at = zero_time;
  increment_attempt = false;
  record_attempt = true;
}
decide p ErrorClass.auth attempt_count now = record {
  status = DeliveryStatus.queued;
  next_attempt_at = now + p.auth_retry_after;
  increment_attempt = false;
  record_attempt = true;
}
