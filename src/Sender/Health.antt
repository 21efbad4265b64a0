-- ===== src/Sender/Health.antt =====
-- internal/sender/health.go: the circuit of a transport, as one replica sees it.
use sendplane.Common.{
  ℕ, suc, ◌+◌, ◌-◌, String, Bool, true, false, ◌&&◌, ◌||◌, not, List, [], ◌∷◌, ◌++◌, Option, none,
  some, length, leb, ltb, if◌then◌else◌, select, Map, lookup, insert,
}
use Prim.Native.String.{◌++◌ as append_str}
use sendplane.Store.Enums.{TransportStatus, transport_eq, ErrorClass}
use sendplane.Store.Time.{Time, Duration, zero_time, is_zero, before, after, minute}

pub record TransportHealth : Type 0 where
  pub tenant_id : String
  pub transport_id : String
  pub failures : ℕ
  pub status : TransportStatus
  pub next_probe : Time
  pub rate_limits : List Time

pub record HealthTracker : Type 0 where
  pub threshold : ℕ
  pub probe_every : Duration
  pub rate_limit_threshold : ℕ
  pub rate_limit_window : Duration
  pub transports : Map TransportHealth

unfoldable pub new_health_tracker : ℕ → Duration → HealthTracker
new_health_tracker threshold probe_every = record {
  threshold = threshold;
  probe_every = probe_every;
  rate_limit_threshold = 3;
  rate_limit_window = minute;
  transports = [];
}

unfoldable pub health_key : String → String → String
health_key tenant_id transport_id = append_str tenant_id (append_str "/" transport_id)

unfoldable pub fresh_health : String → String → TransportHealth
fresh_health tenant_id transport_id = record {
  tenant_id = tenant_id;
  transport_id = transport_id;
  failures = 0;
  status = TransportStatus.healthy;
  next_probe = zero_time;
  rate_limits = [];
}

-- healthTracker.state: the transport's circuit, which a first access creates.
unfoldable pub health_state : HealthTracker → String → String → TransportHealth
unfolding fresh_health
health_state h tenant_id transport_id =
    elim (lookup (health_key tenant_id transport_id) h.transports) [
      | none ↦ fresh_health tenant_id transport_id
      | some th ↦ th
    ]

unfoldable pub put_health : HealthTracker → String → String → TransportHealth → HealthTracker
put_health h tenant_id transport_id th = record h {
  transports = insert (health_key tenant_id transport_id) th h.transports;
}

-- `now.Add(-window)` before the zero time keeps everything, as 0 does.
unfoldable pub prune_rate_limits : List Time → Time → Duration → List Time
prune_rate_limits ts now window = select (λ t. not (before t (now - window))) ts

unfoldable pub usable_health : TransportHealth → Time → Bool
usable_health th now =
    not (transport_eq th.status TransportStatus.unhealthy) || not (before now th.next_probe)

unfoldable pub usable : String → String → Time → HealthTracker → HealthTracker × Bool
unfolding usable_health
usable tenant_id transport_id now h =
    let th = health_state h tenant_id transport_id in
    (put_health h tenant_id transport_id th, usable_health th now)

-- `healthTracker.fail` on the circuit: the status to persist is `none` when it did not change.
unfoldable pub fail_auth :
    HealthTracker → Time → TransportHealth → TransportHealth × Option TransportStatus
fail_auth h now th =
    if ltb (suc th.failures) h.threshold || transport_eq th.status TransportStatus.unhealthy
    then (
      (if transport_eq th.status TransportStatus.unhealthy
          then record th { failures = suc th.failures; next_probe = now + h.probe_every }
          else record th { failures = suc th.failures }),
      none,
    )
    else (
      record th {
        failures = suc th.failures;
        status = TransportStatus.unhealthy;
        next_probe = now + h.probe_every;
      },
      some TransportStatus.unhealthy,
    )

unfoldable pub fail_rate_limited :
    HealthTracker → Time → TransportHealth → TransportHealth × Option TransportStatus
fail_rate_limited h now th =
    let recent = prune_rate_limits th.rate_limits now h.rate_limit_window ++ (now ∷ []) in
    if transport_eq th.status TransportStatus.healthy && leb h.rate_limit_threshold (length recent)
    then (
      record th { rate_limits = recent; status = TransportStatus.cooldown },
      some TransportStatus.cooldown,
    )
    else (record th { rate_limits = recent }, none)

unfoldable pub fail_health :
    HealthTracker → ErrorClass → Time → TransportHealth → TransportHealth × Option TransportStatus
unfolding fail_auth fail_rate_limited
fail_health h ErrorClass.auth now th = fail_auth h now th
fail_health h ErrorClass.rate_limited now th = fail_rate_limited h now th
fail_health h _ now th = (th, none)

unfoldable pub fail :
    String → String → ErrorClass → Time → HealthTracker → HealthTracker × Option TransportStatus
fail tenant_id transport_id class now h =
    let r = fail_health h class now (health_state h tenant_id transport_id) in
    (put_health h tenant_id transport_id r.0, r.1)

-- The cooldown case of `success`: it ends when no rate limit is left in the window.
cooled : HealthTracker → Time → TransportHealth → TransportHealth × Option TransportStatus
cooled h now th =
    let recent = prune_rate_limits th.rate_limits now h.rate_limit_window in
    if ltb 0 (length recent) then (record th { failures = 0; rate_limits = recent }, none) else (
      record th { failures = 0; rate_limits = recent; status = TransportStatus.healthy },
      some TransportStatus.healthy,
    )

unfoldable pub success_health :
    HealthTracker → Time → TransportHealth → TransportHealth × Option TransportStatus
unfolding cooled
success_health h now th = elim th.status [
  | TransportStatus.healthy ↦ (record th { failures = 0 }, none)
  | TransportStatus.cooldown ↦ cooled h now th
  | TransportStatus.unhealthy ↦
      (record th { failures = 0; status = TransportStatus.healthy }, some TransportStatus.healthy)
]

unfoldable pub success :
    String → String → Time → HealthTracker → HealthTracker × Option TransportStatus
success tenant_id transport_id now h =
    let r = success_health h now (health_state h tenant_id transport_id) in
    (put_health h tenant_id transport_id r.0, r.1)

-- One round of the loop of `due`.
unfoldable pub probe_due : Time → TransportHealth → Bool
probe_due now th =
    transport_eq th.status TransportStatus.unhealthy && not (before now th.next_probe)

due_from : Duration → Time → Map TransportHealth → Map TransportHealth × List (String × String)
unfolding probe_due
due_from every now [] = ([], [])
due_from every now ((k, th) ∷ m) =
    let rest = due_from every now m in
    if probe_due now th
    then (
      (k, record th { next_probe = now + every }) ∷ rest.0,
      (th.tenant_id, th.transport_id) ∷ rest.1,
    )
    else ((k, th) ∷ rest.0, rest.1)

unfoldable pub due : Time → HealthTracker → HealthTracker × List (String × String)
unfolding due_from
due now h = let r = due_from h.probe_every now h.transports in (record h { transports = r.0 }, r.1)

-- The status columns of store.Transport.
pub record TransportRow : Type 0 where
  pub id : String
  pub shared : Bool
  pub status : TransportStatus
  pub status_until : Time

-- Sender.transportUsable, on the scope of the transport.
unfoldable pub transport_usable :
    String → TransportRow → Time → HealthTracker → HealthTracker × Bool
transport_usable scope tr now h =
    if not (transport_eq tr.status TransportStatus.healthy)
      && not (is_zero tr.status_until)
      && after now tr.status_until
    then (h, true)
    else if transport_eq tr.status TransportStatus.unhealthy
    then (h, false)
    else usable scope tr.id now h

-- Sender.statusUntil
unfoldable pub status_until : Duration → TransportStatus → Time → Time
status_until interval status now =
    if transport_eq status TransportStatus.healthy then zero_time else now + interval
