-- ===== src/Tests/Sending.antt =====
-- The send pipeline: a send, its classification, the circuit of its transport, its attempts.
use sendplane.Common.{
  ◌*◌, ◌≤◌, ◌<◌, ◌≡◌, refl, ◌↔◌, Bool, true, false, List, [], ◌∷◌, none, arith, codes, has_prefix,
}
use sendplane.Store.Enums.{DeliveryStatus, ErrorClass, TransportStatus, MailboxStatus}
use sendplane.Store.Errors.{ok}
use sendplane.Store.Time.{Time, minute}
use sendplane.Sender.Policy.{Policy, RetryPolicy}
use sendplane.Sender.Classify.{SmtpReply, SendError, classify_reply, enhanced_of, find_enhanced}
use sendplane.Sender.Replies.{IsFinal, IsSoft, hard_reply-IsFinal, transient_reply-IsSoft}
use sendplane.Sender.Results.{Outcome}
use sendplane.Sender.Attempts.{attempts_on, retry_budget}
use sendplane.Sender.Health.{TransportHealth, HealthTracker, TransportRow}
use sendplane.Sender.Process.{got, lost, hook_passes, marked, Config, World, process}
use sendplane.Sender.Outcomes.{offered, IsSound, process_lem}
use sendplane.Sender.Suppression.{suppressed_not_offered}
use sendplane.Mbhealth.{MailboxHealth, Outcome as MailboxOutcome, works, fails, EventType, bounce}
use sendplane.Mbhealth.Outages.{record_all, checked, IsAlternating, is_out, outages_alternate}
use sendplane.Tests.Data.{row}

abbrev pub retry : RetryPolicy
retry = record { max_attempts = 3; backoff = minute ∷ 5 * minute ∷ [] }

abbrev policy : Policy
policy = record {
  retry = retry;
  rate_limit_cap = 5 * minute;
  auth_retry_after = minute;
  jitter = record { num = 0; den = 1 };
  rand = record { num = 0; den = 1 };
}

abbrev pub config : Config
config = record {
  worker_id = "w1";
  rate_limit_cap = 0;
  auth_retry_after = 0;
  rand = record { num = 1; den = 2 };
}

abbrev pub transport : TransportRow
transport = record {
  id = "tr1";
  shared = false;
  status = TransportStatus.healthy;
  status_until = 0;
}

-- A world in which everything works; the tenant's list has the address or not.
abbrev pub world : Bool → World
world listed = record {
  settings = got (record { retry = retry; suppression_enabled = true });
  campaign_version = λ id. got "v1";
  version = λ id. got "v1";
  sender = λ id. got (record { transport_id = "tr1"; domain_id = "" });
  transport = λ id. got transport;
  domain = λ id. lost true "no such domain";
  suppressed = got listed;
  platform_suppressed = got false;
  context_done = false;
  render = got "x.org";
  before_send = hook_passes;
  build = got tt;
  limiter = got tt;
  password = got tt;
  connect = none;
  connect_done = false;
  send = none;
  mark_sent = marked;
  started = 10_000_000;
  deferred_at = 11_000_000;
  send_start = 12_000_000;
  finished = 13_000_000;
  text_of = λ bytes. "";
}

abbrev pub tracker : HealthTracker
tracker = record {
  threshold = 2;
  probe_every = 60;
  rate_limit_threshold = 3;
  rate_limit_window = 100;
  transports = [];
}

process_lem_example :
    IsSound config "t1" "system"
      (world false)
      (row "d1" "a@x.org" 0)
      (process config "t1" "system" (world false) (row "d1" "a@x.org" 0) tracker)
process_lem_example = process_lem config "t1" "system" (world false) (row "d1" "a@x.org" 0) tracker

suppressed_not_offered_example :
    offered (process config "t1" "system" (world true) (row "d1" "a@x.org" 0) tracker).effects
    ≡ false
suppressed_not_offered_example =
    suppressed_not_offered config "t1" "system" (world true) (row "d1" "a@x.org" 0)
      (record { retry = retry; suppression_enabled = true }) tracker refl refl (ground arith) refl

abbrev timeout : Outcome
timeout = record { class = ErrorClass.transient; code = 0; enhanced = ""; message = "i/o timeout" }

-- Three timeouts use up a budget of three.
retry_budget_example :
    let r =
      attempts_on "w1" policy "tr1"
        ((timeout, 1_000_000) ∷ (timeout, 2_000_000) ∷ (timeout, 3_000_000) ∷ [])
        (row "d1" "a@x.org" 0) in
    (r.attempt_count ≡ 3)
    × ((r.status ≡ DeliveryStatus.failed) ↔ (policy.retry.max_attempts ≤ 3))
    × ((r.status ≡ DeliveryStatus.deferred) ↔ (3 < policy.retry.max_attempts))
retry_budget_example =
    retry_budget "w1" policy "tr1" timeout 1_000_000
      ((timeout, 2_000_000) ∷ (timeout, 3_000_000) ∷ []) (row "d1" "a@x.org" 0) (ground arith)

abbrev refused_mailbox : SmtpReply
refused_mailbox = record { code = 550; msg = codes "5.1.1 user unknown" }

abbrev busy_mailbox : SmtpReply
busy_mailbox = record { code = 450; msg = codes "4.2.0 mailbox busy" }

hard_reply-IsFinal_example : IsFinal (classify_reply refused_mailbox).class
unfolding enhanced_of find_enhanced has_prefix
hard_reply-IsFinal_example = hard_reply-IsFinal refused_mailbox (ground arith) (ground arith) refl

transient_reply-IsSoft_example : IsSoft (classify_reply busy_mailbox).class
unfolding enhanced_of find_enhanced has_prefix
transient_reply-IsSoft_example =
    transient_reply-IsSoft busy_mailbox (ground arith) (ground arith) refl

abbrev closed_connection : SendError
closed_connection = record {
  certificate = false;
  record_header = false;
  unknown_authority = false;
  hostname = false;
  net_error = none;
  eof = true;
  unexpected_eof = false;
  net_closed = false;
  op_error = false;
  smtp = none;
  text = codes "EOF";
}

abbrev cooling : TransportHealth
cooling = record {
  tenant_id = "t1";
  transport_id = "tr1";
  failures = 0;
  status = TransportStatus.cooldown;
  next_probe = 0;
  rate_limits = 10 ∷ 20 ∷ [];
}

abbrev broken : HealthTracker
broken = record tracker {
  transports =
      ("t1/tr1", record cooling { status = TransportStatus.unhealthy; next_probe = 5 }) ∷ [];
}

abbrev unchecked : MailboxHealth
unchecked = record {
  status = MailboxStatus.unknown;
  stage = "";
  reason = "";
  checked_at = 0;
  last_ok_at = 0;
  consecutive_failures = 0;
}

-- Three failures in a row, and a recovery.
abbrev checks : List (MailboxOutcome × Time)
checks =
    (fails "auth" "denied", 1_000_000)
    ∷ (fails "auth" "denied", 2_000_000)
    ∷ (fails "auth" "denied", 3_000_000)
    ∷ (works, 4_000_000)
    ∷ []

outages_alternate_example :
    (es : List EventType) × (record_all bounce "m1" "bounces" checks (unchecked, [])
      ≡ ok (checked checks unchecked, es))
    × IsAlternating (is_out unchecked) es (is_out (checked checks unchecked))
outages_alternate_example = outages_alternate bounce "m1" "bounces" checks unchecked (ground arith)
