-- ===== src/Store/Enums.antt =====
-- store/enums.go: the enumerations, their codes (the `iota` of each constant), their names, and the
-- text form that marshals them.
pub mod Text
use sendplane.Common.{ℕ, String, ◌≡◌, Bool, true, false, List, [], ◌∷◌, ◌↔◌, arith, ◌==◌, ℤ, pos}

pub data DeliveryStatus : Type 0 where
  pending queued leased deferred sent failed bounced complained suppressed cancelled :
      DeliveryStatus

abbrev pub delivery_status_code : DeliveryStatus → ℕ
delivery_status_code DeliveryStatus.pending = 0
delivery_status_code DeliveryStatus.queued = 1
delivery_status_code DeliveryStatus.leased = 2
delivery_status_code DeliveryStatus.deferred = 3
delivery_status_code DeliveryStatus.sent = 4
delivery_status_code DeliveryStatus.failed = 5
delivery_status_code DeliveryStatus.bounced = 6
delivery_status_code DeliveryStatus.complained = 7
delivery_status_code DeliveryStatus.suppressed = 8
delivery_status_code DeliveryStatus.cancelled = 9

abbrev pub delivery_status_names : List String
delivery_status_names =
    "pending" ∷ "queued" ∷ "leased" ∷ "deferred" ∷ "sent" ∷ "failed" ∷ "bounced" ∷ "complained"
    ∷ "suppressed" ∷ "cancelled" ∷ []

-- Go's `==` on two statuses.
abbrev pub status_eq : DeliveryStatus → DeliveryStatus → Bool
status_eq a b = delivery_status_code a == delivery_status_code b

-- DeliveryStatus.Terminal
abbrev pub terminal : DeliveryStatus → Bool
terminal DeliveryStatus.sent = true
terminal DeliveryStatus.failed = true
terminal DeliveryStatus.bounced = true
terminal DeliveryStatus.complained = true
terminal DeliveryStatus.suppressed = true
terminal DeliveryStatus.cancelled = true
terminal _ = false

pub data Lane : Type 0 where
  bulk transactional probe : Lane

abbrev pub lane_code : Lane → ℕ
lane_code Lane.bulk = 0
lane_code Lane.transactional = 1
lane_code Lane.probe = 2

abbrev pub lane_eq : Lane → Lane → Bool
lane_eq a b = lane_code a == lane_code b

pub data ErrorClass : Type 0 where
  none transient rate_limited permanent policy auth : ErrorClass

abbrev pub error_class_code : ErrorClass → ℕ
error_class_code ErrorClass.none = 0
error_class_code ErrorClass.transient = 1
error_class_code ErrorClass.rate_limited = 2
error_class_code ErrorClass.permanent = 3
error_class_code ErrorClass.policy = 4
error_class_code ErrorClass.auth = 5

abbrev pub error_class_names : List String
error_class_names = "none" ∷ "transient" ∷ "rate_limited" ∷ "permanent" ∷ "policy" ∷ "auth" ∷ []

abbrev pub class_eq : ErrorClass → ErrorClass → Bool
class_eq a b = error_class_code a == error_class_code b

pub data CampaignStatus : Type 0 where
  draft scheduled running paused completed cancelled : CampaignStatus

abbrev pub campaign_status_code : CampaignStatus → ℕ
campaign_status_code CampaignStatus.draft = 0
campaign_status_code CampaignStatus.scheduled = 1
campaign_status_code CampaignStatus.running = 2
campaign_status_code CampaignStatus.paused = 3
campaign_status_code CampaignStatus.completed = 4
campaign_status_code CampaignStatus.cancelled = 5

abbrev pub campaign_status_names : List String
campaign_status_names =
    "draft" ∷ "scheduled" ∷ "running" ∷ "paused" ∷ "completed" ∷ "cancelled" ∷ []

abbrev pub campaign_status_eq : CampaignStatus → CampaignStatus → Bool
campaign_status_eq a b = campaign_status_code a == campaign_status_code b

pub data MailboxStatus : Type 0 where
  unknown ok error : MailboxStatus

pub data BounceType : Type 0 where
  unknown hard soft complaint : BounceType

pub data HealthStatus : Type 0 where
  unknown green yellow red : HealthStatus

abbrev pub health_status_code : HealthStatus → ℕ
health_status_code HealthStatus.unknown = 0
health_status_code HealthStatus.green = 1
health_status_code HealthStatus.yellow = 2
health_status_code HealthStatus.red = 3

pub status_eq_iff : (a b : DeliveryStatus) → (status_eq a b ≡ true) ↔ (a ≡ b)
status_eq_iff a b = ground arith

pub campaign_status_eq_iff : (a b : CampaignStatus) → (campaign_status_eq a b ≡ true) ↔ (a ≡ b)
campaign_status_eq_iff a b = ground arith

pub data TransportStatus : Type 0 where
  healthy cooldown unhealthy : TransportStatus

abbrev pub transport_status_code : TransportStatus → ℕ
transport_status_code TransportStatus.healthy = 0
transport_status_code TransportStatus.cooldown = 1
transport_status_code TransportStatus.unhealthy = 2

abbrev pub transport_eq : TransportStatus → TransportStatus → Bool
transport_eq a b = transport_status_code a == transport_status_code b
