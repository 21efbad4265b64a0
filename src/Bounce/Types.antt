-- ===== src/Bounce/Types.antt =====
-- internal/bounce: what a parsed message says, and what handling it leaves (parse.go, process.go).
use sendplane.Common.{
  ℕ, String, Bool, true, false, ◌&&◌, not, Option, Map, str_eq, if◌then◌else◌, Bytes, codes,
  has_prefix,
}
use sendplane.Store.Enums.{DeliveryStatus, Lane, BounceType}
use sendplane.Store.Errors.{Result, ok, ◌>>◌}
use sendplane.Store.Time.{Time, is_zero, truncate_time}
use sendplane.Memstore.Tenant.{Tenant}
use sendplane.Memstore.{TenantData, check}
use sendplane.Memstore.Aged.{delete_aged}
use sendplane.Memstore.Suppressions.{Suppression, SuppressionReason}

-- `unmatched` is BounceSourceNone.
pub data BounceSource : Type 0 where
  verp header message_id heuristic unmatched : BounceSource

pub data Confidence : Type 0 where
  high medium low : Confidence

pub record Correlation : Type 0 where
  pub delivery_id : String
  pub tenant_id : String
  pub source : BounceSource
  pub verified : Bool

-- The fields of `Parsed` that `Handle` reads.
pub record Parsed : Type 0 where
  pub kind : BounceType
  pub auto_reply : Bool
  pub status : String
  pub diagnostic_code : String
  pub final_recipient : String
  pub message_id : String
  pub date : Time
  pub confidence : Confidence
  pub correlation : Correlation

-- `raw` is the text inside its JSON string.
pub record BounceEvent : Type 0 where
  pub id : String
  pub tenant_id : String
  pub delivery_id : String
  pub kind : BounceType
  pub source : BounceSource
  pub verified : Bool
  pub recipient : String
  pub email_norm : String
  pub smtp_status : String
  pub diagnostic_code : String
  pub message_id : String
  pub raw : Option Bytes
  pub received_at : Time
  pub created_at : Time

-- deliveryEventPayload
pub record BouncePayload : Type 0 where
  pub delivery_id : String
  pub campaign_id : String
  pub status : DeliveryStatus
  pub email : String
  pub email_norm : String
  pub lane : Lane
  pub occurred_at : Time
  pub bounce_type : BounceType
  pub bounce_source : BounceSource
  pub smtp_status : String
  pub diagnostic_code : String
  pub confidence : Confidence
  pub suppressed : Bool

-- mailbox.Message: the raw text, and when the server received it.
pub record Message : Type 0 where
  pub raw : Bytes
  pub received : Time

pub record Outcome : Type 0 where
  pub recorded : Bool
  pub event_id : String
  pub processed : Bool
  pub new_status : DeliveryStatus
  pub suppressed : Bool
  pub unverified : Bool
  pub skipped : String

-- A tenant's data with its bounces and suppressed addresses, and those of the system tenant. The
-- senders of the tenant are kept with the transport they use.
pub record BounceData : Type 0 where
  pub tenant : Tenant
  pub bounces : Map BounceEvent
  pub suppressions : Map Suppression
  pub platform : Map Suppression

-- The options of the processor and the settings of the tenant. `system` is SystemTenantID.
pub record HandleConfig : Type 0 where
  pub has_provider : Bool
  pub system : String
  pub max_raw_bytes : ℕ
  pub suppression_enabled : Bool
  pub retain_raw : Bool

-- `failed` is an error of the store: the caller must not acknowledge the message.
pub record Handled : Type 0 where
  pub outcome : Outcome
  pub failed : Bool
  pub state : BounceData

abbrev pub nothing_done : Outcome
nothing_done = record {
  recorded = false;
  event_id = "";
  processed = false;
  new_status = DeliveryStatus.pending;
  suppressed = false;
  unverified = false;
  skipped = "";
}

abbrev pub skip : String → Outcome → BounceData → Handled
skip reason out s = record { outcome = record out { skipped = reason }; failed = false; state = s }

abbrev pub fails : Outcome → BounceData → Handled
fails out s = record { outcome = out; failed = true; state = s }

-- IsPlatformID
abbrev pub is_platform_id : String → Bool
is_platform_id id = has_prefix (codes id) (codes "sys:")

-- `Parsed.IsBounce`
abbrev pub is_bounce : Parsed → Bool
is_bounce p = not p.auto_reply && elim p.kind [
  | BounceType.unknown ↦ false
  | BounceType.hard ↦ true
  | BounceType.soft ↦ true
  | BounceType.complaint ↦ true
]

-- The report names another tenant.
abbrev pub is_foreign : Parsed → String → Bool
is_foreign p tenant_id =
    not (str_eq p.correlation.tenant_id "") && not (str_eq p.correlation.tenant_id tenant_id)

abbrev pub is_soft : BounceType → Bool
is_soft BounceType.unknown = false
is_soft BounceType.hard = false
is_soft BounceType.soft = true
is_soft BounceType.complaint = false

-- receivedAt
unfoldable pub received_at : Message → Parsed → Time → Time
received_at msg p now =
    if not (is_zero msg.received)
    then msg.received
    else if not (is_zero p.date)
    then p.date
    else now

abbrev pub terminal_of : BounceType → DeliveryStatus
terminal_of BounceType.complaint = DeliveryStatus.complained
terminal_of _ = DeliveryStatus.bounced

abbrev pub reason_of : BounceType → SuppressionReason
reason_of BounceType.complaint = SuppressionReason.complaint
reason_of _ = SuppressionReason.hard_bounce

abbrev pub event_type_of : BounceType → String
event_type_of BounceType.complaint = "delivery.complained"
event_type_of _ = "delivery.bounced"

abbrev pub source_label : BounceSource → BounceSource
source_label BounceSource.unmatched = BounceSource.heuristic
source_label src = src

-- bounceRepo.DeleteBefore
unfoldable pub delete_bounces_before :
    Time → ℕ → TenantData → Map BounceEvent → Result (Map BounceEvent × ℕ)
delete_bounces_before cutoff limit s rows = do
  check s
  ok (delete_aged (λ b. b.created_at) (truncate_time cutoff) limit rows)
