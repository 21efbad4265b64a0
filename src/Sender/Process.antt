-- ===== src/Sender/Process.antt =====
-- internal/sender/process.go: `process`, one delivery end to end. What a call outside the sender
-- returns in this run is a field of `World`; what the run does to the outside is its effects.
use sendplane.Common.{
  ◌+◌, String, Bool, true, false, ◌&&◌, not, List, [], ◌∷◌, ◌++◌, Option, none, some, str_eq,
  if◌then◌else◌, ltb, Bytes,
}
use Prim.Native.String.{◌++◌ as append_str}
use sendplane.Store.Enums.{DeliveryStatus, ErrorClass, Lane, lane_eq, TransportStatus}
use sendplane.Store.Time.{Time, Duration, zero_time}
use sendplane.Store.Delivery.{Delivery, DeliveryAttempt, DeliveryResult}
use sendplane.Sender.Policy.{Policy, RetryPolicy, Fraction, default_policy}
use sendplane.Sender.Classify.{SendError, Failure, classify}
use sendplane.Sender.Results.{Outcome, decided, fail_result, internal_defer, config_result}
use sendplane.Sender.Health.{HealthTracker, TransportRow, transport_usable, success, fail}

-- What a lookup returns: a value, or an error with its text and the answer of `isNotFound`.
pub data Answer (A : Type 0) : Type 0 where
  got : A → Answer A
  lost : Bool → String → Answer A

-- The hook `BeforeSend`: it is absent or passes, skips the delivery, or fails.
pub data HookAnswer : Type 0 where
  hook_passes hook_skips : HookAnswer
  hook_fails : String → HookAnswer

pub data MarkAnswer : Type 0 where
  marked lease_gone mark_fails : MarkAnswer

-- The part of the tenant settings that `process` reads.
pub record Settings : Type 0 where
  pub retry : RetryPolicy
  pub suppression_enabled : Bool

pub record SenderRow : Type 0 where
  pub transport_id : String
  pub domain_id : String

-- The knobs of the sender's configuration.
pub record Config : Type 0 where
  pub worker_id : String
  pub rate_limit_cap : Duration
  pub auth_retry_after : Duration
  pub rand : Fraction

pub record World : Type 0 where
  pub settings : Answer Settings
  pub campaign_version : String → Answer String
  pub version : String → Answer String
  pub sender : String → Answer SenderRow
  pub transport : String → Answer TransportRow
  pub domain : String → Answer String
  pub suppressed : Answer Bool
  pub platform_suppressed : Answer Bool
  pub context_done : Bool
  -- The domain of the rendered From address.
  pub render : Answer String
  pub before_send : HookAnswer
  pub build : Answer (Unit {0})
  pub limiter : Answer (Unit {0})
  pub password : Answer (Unit {0})
  pub connect : Option SendError
  pub connect_done : Bool
  pub send : Option SendError
  pub mark_sent : MarkAnswer
  -- The readings of the clock.
  pub started : Time
  pub deferred_at : Time
  pub send_start : Time
  pub finished : Time
  -- Go's conversion of the bytes of a reply to a string.
  pub text_of : Bytes → String

pub data Effect : Type 0 where
  -- The SMTP conversation that offers the message to the relay.
  offers : Effect
  penalizes : Effect
  sets_status : TransportStatus → Effect
  marks_sent : Effect

-- `result` is `none` for the zero DeliveryResult: nothing is committed.
pub record Run : Type 0 where
  pub result : Option DeliveryResult
  pub health : HealthTracker
  pub effects : List Effect

-- Sender.policy
unfoldable pub policy : Config → Settings → Policy
unfolding default_policy
policy cfg settings =
    let p = default_policy settings.retry cfg.rand in
    record p {
      rate_limit_cap = if ltb 0 cfg.rate_limit_cap then cfg.rate_limit_cap else p.rate_limit_cap;
      auth_retry_after =
          if ltb 0 cfg.auth_retry_after then cfg.auth_retry_after else p.auth_retry_after;
    }

abbrev shared_sender_reason : String
shared_sender_reason = "shared sender unavailable"

-- FailureReason
abbrev failure_reason : Bool → String → String
failure_reason shared reason = if not shared then reason else shared_sender_reason

unfoldable pub plain_result :
    String → Delivery → DeliveryStatus → Time → ErrorClass → String → DeliveryResult
plain_result worker d status at class error = record {
  delivery_id = d.id;
  lease_owner = worker;
  new_status = status;
  next_attempt_at = at;
  error_class = class;
  smtp_code = 0;
  error = error;
  message_id = "";
  increment_attempt = false;
  attempt = none;
}

abbrev pub status_effect : Option TransportStatus → List Effect
status_effect none = []
status_effect (some st) = sets_status st ∷ []

module _ (cfg : Config) (tenant system : String) (w : World) (d : Delivery) where
  committed : HealthTracker → DeliveryResult → Run
  committed h r = record { result = some r; health = h; effects = [] }

  unfoldable pub defer_run : HealthTracker → String → String → Run
  unfolding committed
  defer_run h what error =
      committed h
        (internal_defer cfg.worker_id d (append_str what (append_str ": " error)) w.deferred_at)

  unfoldable pub config_run : HealthTracker → String → Bool → String → Run
  unfolding committed
  config_run h what not_found error = committed h (
      config_result cfg.worker_id d not_found
        (append_str what (append_str (if not_found then " not found: " else ": ") error))
        w.deferred_at)

  -- The outcome of the wire as `decide` takes it.
  unfoldable pub outcome_of : Failure → Outcome
  outcome_of f = record {
    class = f.class;
    code = f.code;
    enhanced = w.text_of f.enhanced;
    message = w.text_of f.message;
  }

  -- The attempt row gets the times of the SMTP conversation.
  timed : Option DeliveryAttempt → Option DeliveryAttempt
  timed none = none
  timed (some a) = some (record a { started_at = w.send_start; finished_at = w.finished })

  unfoldable pub send_result : Policy → String → String → Failure → DeliveryResult
  unfolding timed
  send_result pol transport_id from_domain f =
      let res = decided cfg.worker_id d pol (outcome_of f) w.finished transport_id in
      record res {
        message_id = append_str d.id (append_str "@" from_domain);
        attempt = timed res.attempt;
      }

  -- limitScope
  unfoldable pub scope : TransportRow → String
  scope tr = if tr.shared then system else tenant

  -- The switch on the class of the outcome: the tracker and the effects.
  unfoldable pub observe : ErrorClass → TransportRow → HealthTracker → HealthTracker × List Effect
  observe ErrorClass.none tr h =
      let r = success (scope tr) tr.id w.finished h in (r.0, status_effect r.1)
  observe ErrorClass.rate_limited tr h =
      let r = fail (scope tr) tr.id ErrorClass.rate_limited w.finished h in
      (r.0, penalizes ∷ status_effect r.1)
  observe ErrorClass.auth tr h =
      let r = fail (scope tr) tr.id ErrorClass.auth w.finished h in (r.0, status_effect r.1)
  observe _ tr h = (h, [])

  -- After the wire: `decide`, and for a success `MarkSent`, whose lost lease drops the result.
  unfoldable pub after_send :
      Policy → TransportRow → String → List Effect → Failure → HealthTracker → Run
  after_send pol tr from_domain offered f h =
      let o = observe f.class tr h in
      let res = send_result pol tr.id from_domain f in
      elim f.class [
        | ErrorClass.none ↦ record {
          result = elim w.mark_sent [ lease_gone ↦ none | _ ↦ some res ];
          health = o.0;
          effects = offered ++ (o.1 ++ (marks_sent ∷ []));
        }
        | _ ↦ record { result = some res; health = o.0; effects = offered ++ o.1 }
      ]

  -- The pool's connection, and the message on it.
  unfoldable pub deliver : Policy → TransportRow → String → HealthTracker → Run
  deliver pol tr from_domain h = elim w.connect [
    | some e ↦
        if w.connect_done
        then defer_run h "connect" (w.text_of e.text)
        else after_send pol tr from_domain [] (classify (some e)) h
    | none ↦ after_send pol tr from_domain (offers ∷ []) (classify w.send) h
  ]

  -- The rate limiter, then the password.
  unfoldable pub admit : Policy → TransportRow → String → HealthTracker → Run
  admit pol tr from_domain h = elim w.limiter [
    | lost nf e ↦ defer_run h "rate limiter" e
    | got u ↦ elim w.password [
      | lost nf e ↦ defer_run h "transport password" e
      | got v ↦ deliver pol tr from_domain h
    ]
  ]

  -- The message: rendered, passed by the hook, and built.
  unfoldable pub prepare : Policy → TransportRow → HealthTracker → Run
  unfolding committed
  prepare pol tr h = elim w.render [
    | lost nf e ↦
        if w.context_done
        then defer_run h "render" e
        else committed h (fail_result cfg.worker_id d ErrorClass.permanent 0 e w.started)
    | got from_domain ↦ elim w.before_send [
      | hook_skips ↦ committed h (
          plain_result cfg.worker_id d DeliveryStatus.suppressed zero_time ErrorClass.none
            "skipped by BeforeSend")
      | hook_fails e ↦ committed h (
          decided cfg.worker_id d pol
            (record {
              class = ErrorClass.transient;
              code = 0;
              enhanced = "";
              message = append_str "BeforeSend: " e;
            })
            w.started tr.id)
      | hook_passes ↦ elim w.build [
        | lost nf e ↦ committed h (fail_result cfg.worker_id d ErrorClass.permanent 0 e w.started)
        | got u ↦ admit pol tr from_domain h
      ]
    ]
  ]

  -- The circuit of the transport.
  unfoldable pub route : Policy → TransportRow → HealthTracker → Run
  unfolding committed
  route pol tr h =
      let u = transport_usable (scope tr) tr w.started h in
      if u.1
      then prepare pol tr u.0
      else committed u.0 (
          plain_result cfg.worker_id d DeliveryStatus.queued (w.started + pol.auth_retry_after)
            ErrorClass.auth (failure_reason tr.shared "transport is unhealthy"))

  -- The tenant's list of suppressions, then that of a shared relay.
  unfoldable pub suppression : Settings → TransportRow → Answer Bool
  suppression settings tr =
      if settings.suppression_enabled && not (lane_eq d.lane Lane.probe)
      then elim w.suppressed [
        | lost nf e ↦ lost nf (append_str "suppression lookup: " e)
        | got true ↦ got true
        | got false ↦
            if tr.shared
            then elim w.platform_suppressed [
              | lost nf e ↦ lost nf (append_str "platform suppression lookup: " e)
              | got s ↦ got s
            ]
            else got false
      ]
      else got false

  unfoldable pub check_suppression : Settings → TransportRow → HealthTracker → Run
  unfolding committed
  check_suppression settings tr h = elim (suppression settings tr) [
    | lost nf e ↦ committed h (internal_defer cfg.worker_id d e w.deferred_at)
    | got true ↦ committed h (
        plain_result cfg.worker_id d DeliveryStatus.suppressed zero_time ErrorClass.none
          "address is suppressed")
    | got false ↦ route (policy cfg settings) tr h
  ]

  -- The configuration rows: version, sender, transport and domain. A missing domain is none.
  unfoldable pub resolve : Settings → String → HealthTracker → Run
  resolve settings version_id h = elim (w.version version_id) [
    | lost nf e ↦ config_run h "message version" nf e
    | got v ↦ elim (w.sender d.sender_id) [
      | lost nf e ↦ config_run h "sender" nf e
      | got snd ↦ elim (w.transport snd.transport_id) [
        | lost nf e ↦ config_run h "transport" nf e
        | got tr ↦ elim (w.domain snd.domain_id) [
          | lost false e ↦ defer_run h "sending domain" e
          | lost true e ↦ check_suppression settings tr h
          | got dom ↦ check_suppression settings tr h
        ]
      ]
    ]
  ]

  -- Sender.process: a campaign delivery with no version of its own takes the campaign's.
  unfoldable pub process : HealthTracker → Run
  process h = elim w.settings [
    | lost nf e ↦ defer_run h "tenant settings" e
    | got settings ↦
        if str_eq d.campaign_id ""
        then resolve settings d.version_id h
        else elim (w.campaign_version d.campaign_id) [
          | lost nf e ↦ config_run h "campaign" nf e
          | got v ↦ resolve settings (if str_eq d.version_id "" then v else d.version_id) h
        ]
  ]
