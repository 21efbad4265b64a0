-- ===== src/Sender/Results.antt =====
-- internal/sender/process.go and results.go: the result that a worker commits for a delivery, and
-- the delivery events of a committed batch. A JSON payload stands as the record it encodes.
use sendplane.Common.{
  ℕ, suc, ◌+◌, ◌*◌, String, Bool, false, ◌&&◌, not, List, [], ◌∷◌, ◌++◌, none, some, str_eq,
  if◌then◌else◌, contains,
}
use sendplane.Store.Enums.{DeliveryStatus, ErrorClass, Lane}
use sendplane.Store.Time.{Time, Duration, zero_time, second}
use sendplane.Store.Delivery.{Delivery, DeliveryAttempt, DeliveryResult}
use sendplane.Sender.Policy.{Policy, decide}

-- What the results take of a `Failure`: the texts are strings here.
pub record Outcome : Type 0 where
  pub class : ErrorClass
  pub code : ℕ
  pub enhanced : String
  pub message : String

attempt_row : Delivery → ℕ → String → Outcome → Time → DeliveryAttempt
attempt_row d number transport f now = record {
  id = "";
  tenant_id = d.tenant_id;
  delivery_id = d.id;
  attempt_no = number;
  retry_gen = d.retry_gen;
  transport_id = transport;
  started_at = now;
  finished_at = now;
  smtp_code = f.code;
  enhanced_code = f.enhanced;
  error_class = f.class;
  error = f.message;
  created_at = zero_time;
}

-- Sender.decide
unfoldable pub decided : String → Delivery → Policy → Outcome → Time → String → DeliveryResult
unfolding attempt_row
decided worker d pol f now transport =
    let dec = decide pol f.class d.attempt_count now in
    record {
      delivery_id = d.id;
      lease_owner = worker;
      new_status = dec.status;
      next_attempt_at = dec.next_attempt_at;
      error_class = f.class;
      smtp_code = f.code;
      error = f.message;
      message_id = "";
      increment_attempt = dec.increment_attempt;
      attempt =
          if dec.record_attempt
          then some (
              attempt_row d (if dec.increment_attempt then suc d.attempt_count else d.attempt_count)
                transport f now)
          else none;
    }

-- Sender.failResult
unfoldable pub fail_result : String → Delivery → ErrorClass → ℕ → String → Time → DeliveryResult
unfolding attempt_row
fail_result worker d class code msg now = record {
  delivery_id = d.id;
  lease_owner = worker;
  new_status = DeliveryStatus.failed;
  next_attempt_at = zero_time;
  error_class = class;
  smtp_code = code;
  error = msg;
  message_id = "";
  increment_attempt = false;
  attempt = some (
      attempt_row d d.attempt_count ""
        (record { class = class; code = code; enhanced = ""; message = msg }) now);
}

abbrev internal_retry_after : Duration
internal_retry_after = 30 * second

-- Sender.internalDefer
unfoldable pub internal_defer : String → Delivery → String → Time → DeliveryResult
internal_defer worker d error now = record {
  delivery_id = d.id;
  lease_owner = worker;
  new_status = DeliveryStatus.queued;
  next_attempt_at = now + internal_retry_after;
  error_class = ErrorClass.none;
  smtp_code = 0;
  error = error;
  message_id = "";
  increment_attempt = false;
  attempt = none;
}

-- Sender.configResult: `not_found` is the answer of `isNotFound(err)`.
unfoldable pub config_result : String → Delivery → Bool → String → Time → DeliveryResult
config_result worker d not_found error now =
    if not not_found
    then internal_defer worker d error now
    else fail_result worker d ErrorClass.permanent 0 error now

-- deliveryRef
pub record DeliveryRef : Type 0 where
  pub campaign_id : String
  pub sender_id : String
  pub email : String
  pub email_norm : String
  pub lane : Lane
  pub attempt_no : ℕ

pub record Completion : Type 0 where
  pub res : DeliveryResult
  pub d : DeliveryRef

-- batcher.add: a result of no delivery is not queued.
unfoldable pub add : DeliveryResult → Delivery → List Completion → List Completion
add r d buffer =
    if str_eq r.delivery_id ""
    then buffer
    else buffer
      ++ (record {
        res = r;
        d = record {
          campaign_id = d.campaign_id;
          sender_id = d.sender_id;
          email = d.email;
          email_norm = d.email_norm;
          lane = d.lane;
          attempt_no = if r.increment_attempt then suc d.attempt_count else d.attempt_count;
        };
      }
          ∷ [])

-- The results of a batch, in its order: what `flush` hands to `Complete`.
unfoldable pub batch_results : List Completion → List DeliveryResult
batch_results [] = []
batch_results (c ∷ cs) = c.res ∷ batch_results cs

-- store.OutboxEvent as `enqueueEvents` fills it, with its payload.
pub record DeliveryEvent : Type 0 where
  pub kind : String
  pub delivery_id : String
  pub campaign_id : String
  pub sender_id : String
  pub status : DeliveryStatus
  pub email : String
  pub email_norm : String
  pub lane : Lane
  pub occurred_at : Time
  pub message_id : String
  pub attempt_no : ℕ
  pub error_class : ErrorClass
  pub smtp_code : ℕ
  pub error : String

-- eventTypeFor: the empty text for a status without an event.
unfoldable pub event_type_for : DeliveryStatus → String
event_type_for DeliveryStatus.sent = "delivery.sent"
event_type_for DeliveryStatus.failed = "delivery.failed"
event_type_for _ = ""

abbrev pub default_off_event_types : List String
default_off_event_types = "delivery.sent" ∷ "delivery.opened" ∷ "delivery.clicked" ∷ []

-- TenantSettings.SubscribedTo, on the tenant's event types.
unfoldable pub subscribed_to : List String → String → Bool
subscribed_to [] typ = not (contains default_off_event_types typ)
subscribed_to (t ∷ types) typ = contains (t ∷ types) typ

delivery_event : Time → Completion → DeliveryEvent
delivery_event now c = record {
  kind = event_type_for c.res.new_status;
  delivery_id = c.res.delivery_id;
  campaign_id = c.d.campaign_id;
  sender_id = c.d.sender_id;
  status = c.res.new_status;
  email = c.d.email;
  email_norm = c.d.email_norm;
  lane = c.d.lane;
  occurred_at = now;
  message_id = c.res.message_id;
  attempt_no = c.d.attempt_no;
  error_class = c.res.error_class;
  smtp_code = c.res.smtp_code;
  error = c.res.error;
}

-- batcher.enqueueEvents: the events of a batch, on the tenant's event types.
unfoldable pub enqueue_events : List String → Time → List Completion → List DeliveryEvent
unfolding delivery_event
enqueue_events types now [] = []
enqueue_events types now (c ∷ batch) =
    let typ = event_type_for c.res.new_status in
    let rest = enqueue_events types now batch in
    if not (str_eq typ "") && subscribed_to types typ then delivery_event now c ∷ rest else rest
