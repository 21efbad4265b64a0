-- ===== src/Mbhealth.antt =====
-- internal/mbhealth/mbhealth.go: the health of a probe or bounce mailbox, and the events that tell
-- the host about an outage. The store is the interface that `Record` uses.
pub mod Outages
use sendplane.Common.{
  ℕ, zero, suc, ◌+◌, ◌≤◌, String, ◌≡◌, Bool, true, false, ◌&&◌, ◌||◌, List, [], ◌∷◌, leb, ◌==◌,
  if◌then◌else◌, Option, none, some,
}
use sendplane.Store.Enums.{MailboxStatus}
use sendplane.Store.Errors.{Result, ok, err, ◌>>=◌}
use sendplane.Store.Time.{Time, zero_time, truncate_time}

-- store.MailboxHealth
pub record MailboxHealth : Type 0 where
  pub status : MailboxStatus
  pub stage : String
  pub reason : String
  pub checked_at : Time
  pub last_ok_at : Time
  pub consecutive_failures : ℕ

pub data Kind : Type 0 where
  probe bounce : Kind

pub record Mailbox : Type 0 where
  pub id : String
  pub name : String
  pub health : MailboxHealth

-- `OK()` and `Fail(stage, reason)`.
pub data Outcome : Type 0 where
  works : Outcome
  fails : String → String → Outcome

abbrev pub failures_for_event : ℕ
failures_for_event = 2

-- Next
unfoldable pub next : MailboxHealth → Outcome → Time → MailboxHealth
next prev Outcome.works now = record {
  status = MailboxStatus.ok;
  stage = "ok";
  reason = "";
  checked_at = truncate_time now;
  last_ok_at = truncate_time now;
  consecutive_failures = 0;
}
next prev (Outcome.fails stage reason) now = record {
  status = MailboxStatus.error;
  stage = stage;
  reason = reason;
  checked_at = truncate_time now;
  last_ok_at = prev.last_ok_at;
  consecutive_failures = suc prev.consecutive_failures;
}

pub data EventType : Type 0 where
  mailbox_unhealthy mailbox_recovered : EventType

abbrev is_error : MailboxStatus → Bool
is_error MailboxStatus.error = true
is_error _ = false

abbrev is_ok : MailboxStatus → Bool
is_ok MailboxStatus.ok = true
is_ok _ = false

-- `transition`: `none` for the empty event type.
unfoldable pub transition : MailboxHealth → MailboxHealth → Option EventType
transition prev after =
    if is_error after.status && after.consecutive_failures == failures_for_event
    then some EventType.mailbox_unhealthy
    else if is_ok after.status
        && is_error prev.status
        && leb failures_for_event prev.consecutive_failures
    then some EventType.mailbox_recovered
    else none

-- The outbox event with its payload.
pub record HealthEvent : Type 0 where
  pub kind : EventType
  pub mailbox_kind : Kind
  pub mailbox_id : String
  pub name : String
  pub health : MailboxHealth
  pub occurred_at : Time

-- What `Record` uses of a store: the two mailbox repositories and the outbox.
pub record MailboxStore (S : Type 0) : Type 0 where
  pub update_health : Kind → String → MailboxHealth → S → Result S
  pub enqueue : HealthEvent → S → Result S

-- Record
unfoldable pub record_health :
    {S : Type 0} → MailboxStore S → Kind → Mailbox → Outcome → Time → S → Result S
record_health st kind m o now s = do
  let after = next m.health o now
  s ← st.update_health kind m.id after s
  elim (transition m.health after) [
    | none ↦ ok s
    | some typ ↦
        st.enqueue
          (record {
            kind = typ;
            mailbox_kind = kind;
            mailbox_id = m.id;
            name = m.name;
            health = after;
            occurred_at = truncate_time now;
          })
          s
  ]
