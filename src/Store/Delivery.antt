-- ===== src/Store/Delivery.antt =====
-- store/delivery.go: the delivery, its attempts, and the requests of the delivery repository. The
-- `map[string]any` values that only the renderer reads stand as their JSON text.
use sendplane.Common.{ℕ, String, Bool, List, Option, Map, ℤ}
use sendplane.Store.Enums.{DeliveryStatus, Lane, ErrorClass}
use sendplane.Store.Time.{Time, Duration}

pub record Delivery : Type 0 where
  pub id : String
  pub tenant_id : String
  pub campaign_id : String
  pub version_id : String
  pub sender_id : String
  pub lane : Lane
  pub priority : ℤ
  pub status : DeliveryStatus
  pub email : String
  pub email_norm : String
  pub name : String
  pub locale : String
  pub vars : String
  pub tenant_vars : String
  pub unsubscribe_url : String
  pub headers : Map String
  pub attempt_count : ℕ
  pub retry_gen : ℕ
  pub next_attempt_at : Time
  pub lease_owner : String
  pub lease_until : Time
  pub last_error_class : ErrorClass
  pub last_smtp_code : ℕ
  pub last_error : String
  pub message_id : String
  pub sent_at : Time
  pub finished_at : Time
  pub first_opened_at : Time
  pub first_clicked_at : Time
  pub unsubscribed_at : Time
  pub created_at : Time
  pub updated_at : Time

pub record DeliveryAttempt : Type 0 where
  pub id : String
  pub tenant_id : String
  pub delivery_id : String
  pub attempt_no : ℕ
  pub retry_gen : ℕ
  pub transport_id : String
  pub started_at : Time
  pub finished_at : Time
  pub smtp_code : ℕ
  pub enhanced_code : String
  pub error_class : ErrorClass
  pub error : String
  pub created_at : Time

-- `campaign_ids` is `none` for a nil slice: no filter at all.
pub record ClaimRequest : Type 0 where
  pub lane : Lane
  pub campaign_ids : Option (List String)
  pub limit : ℕ
  pub lease_for : Duration
  pub worker_id : String
  pub now : Time

pub record DeliveryResult : Type 0 where
  pub delivery_id : String
  pub lease_owner : String
  pub new_status : DeliveryStatus
  pub next_attempt_at : Time
  pub error_class : ErrorClass
  pub smtp_code : ℕ
  pub error : String
  pub message_id : String
  pub increment_attempt : Bool
  pub attempt : Option DeliveryAttempt

-- `delivery_ids` is `none` for a nil slice: no selection at all.
pub record RetryFilter : Type 0 where
  pub campaign_id : String
  pub delivery_ids : Option (List String)
  pub statuses : List DeliveryStatus
  pub error_classes : List ErrorClass
  pub now : Time

pub record DeliveryFilter : Type 0 where
  pub statuses : List DeliveryStatus
  pub error_classes : List ErrorClass
  pub lanes : List Lane
  pub email_norm : String
  pub campaign_id : Option String
  pub since : Time
  pub until : Time
