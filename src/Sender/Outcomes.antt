-- ===== src/Sender/Outcomes.antt =====
-- What `process` commits, against what happened on the wire.
use sendplane.Common.{
  ℕ, String, ◌≡◌, refl, ◌≢◌, ◌⊎◌, inl, ◌↔◌, Bool, true, false, ◌||◌, List, [], ◌∷◌, ◌++◌, Option,
  none, some, str_eq, if◌then◌else◌, arith,
}
use sendplane.Store.Enums.{DeliveryStatus, ErrorClass, TransportStatus}
use sendplane.Store.Time.{Time, zero_time}
use sendplane.Store.Delivery.{Delivery}
use sendplane.Sender.Policy.{Policy}
use sendplane.Sender.Retry.{IsRetryable, decide_cases}
use sendplane.Sender.Classify.{SendError, Failure, classify}
use sendplane.Sender.Replies.{classify_none}
use sendplane.Sender.Results.{Outcome, decided, fail_result, internal_defer, config_result}
use sendplane.Sender.Health.{HealthTracker, TransportRow, transport_usable}
use sendplane.Sender.Process.{
  Answer, got, lost, HookAnswer, hook_passes, hook_skips, hook_fails, lease_gone, Settings, Config,
  World, Effect, offers, penalizes, sets_status, marks_sent, Run, status_effect, policy,
  plain_result, defer_run, config_run, outcome_of, send_result, observe, after_send, deliver, admit,
  prepare, route, suppression, check_suppression, resolve, process, scope,
}

-- The message was offered to the relay.
abbrev pub offered : List Effect → Bool
offered [] = false
offered (offers ∷ es) = true
offered (_ ∷ es) = offered es

offered-append : (es fs : List Effect) → offered (es ++ fs) ≡ offered es || offered fs
offered-append [] fs = refl
offered-append (offers ∷ es) fs = refl
offered-append (penalizes ∷ es) fs = offered-append es fs
offered-append (sets_status st ∷ es) fs = offered-append es fs
offered-append (marks_sent ∷ es) fs = offered-append es fs

status_effect_lem : (o : Option TransportStatus) → offered (status_effect o) ≡ false
status_effect_lem none = refl
status_effect_lem (some st) = refl

-- What holds of both branches on an answer holds of the run.
pub by_answer :
    {A : Type 0} (P : Run → Type 0) (a : Answer A) (f : Bool → String → Run) (g : A → Run)
    → ((nf : Bool) (e : String) → P (f nf e))
    → ((x : A) → P (g x))
    → P (elim a [ lost nf e ↦ f nf e | got x ↦ g x ])
by_answer P (lost nf e) f g hf hg = hf nf e
by_answer P (got x) f g hf hg = hg x

by_option :
    {A : Type 0} (P : Run → Type 0) (a : Option A) (f : A → Run) (g : Run)
    → ((x : A) → a ≡ some x → P (f x))
    → (a ≡ none → P g)
    → P (elim a [ some x ↦ f x | none ↦ g ])
by_option P (some x) f g hf hg = hf x refl
by_option P none f g hf hg = hg refl

pub by_test : (P : Run → Type 0) (b : Bool) (r q : Run) → P r → P q → P (if b then r else q)
by_test P true r q h k = h
by_test P false r q h k = k

pub by_domain :
    {A : Type 0} (P : Run → Type 0) (a : Answer A) (f : String → Run) (g : Run)
    → ((e : String) → P (f e))
    → P g
    → P (elim a [ lost false e ↦ f e | lost true e ↦ g | got x ↦ g ])
by_domain P (lost false e) f g hf hg = hf e
by_domain P (lost true e) f g hf hg = hg
by_domain P (got x) f g hf hg = hg

module _ (cfg : Config) (tenant system : String) (w : World) (d : Delivery) where
  -- The relay accepted the message.
  abbrev pub IsAccepted : Run → Type 0
  IsAccepted r = (offered r.effects ≡ true) × (w.send ≡ none)

  abbrev pub IsSound : Run → Type 0
  IsSound r = elim r.result [
    | none ↦ IsAccepted r × (w.mark_sent ≡ lease_gone)
    | some res ↦
        (res.delivery_id ≡ d.id)
        × (res.lease_owner ≡ cfg.worker_id)
        × ((res.new_status ≡ DeliveryStatus.sent) ↔ IsAccepted r)
        × (res.increment_attempt ≡ true
            → (offered r.effects ≡ true) ⊎ (w.connect ≢ none) ⊎ (w.before_send ≢ hook_passes))
  ]

  observe_lem :
      (c : ErrorClass) (tr : TransportRow) (h : HealthTracker)
      → offered (observe cfg tenant system w d c tr h).1 ≡ false
  unfolding observe
  observe_lem ErrorClass.none tr h = status_effect_lem _
  observe_lem ErrorClass.rate_limited tr h = status_effect_lem _
  observe_lem ErrorClass.auth tr h = status_effect_lem _
  observe_lem ErrorClass.transient tr h = refl
  observe_lem ErrorClass.permanent tr h = refl
  observe_lem ErrorClass.policy tr h = refl

  defer_run-IsSound :
      (h : HealthTracker) (what error : String)
      → IsSound (defer_run cfg tenant system w d h what error)
  unfolding defer_run internal_defer
  defer_run-IsSound h what error = ground arith

  config_run-IsSound :
      (h : HealthTracker) (what : String) (nf : Bool) (error : String)
      → IsSound (config_run cfg tenant system w d h what nf error)
  unfolding config_run config_result fail_result internal_defer
  config_run-IsSound h what nf error = ground arith

  -- What the wire returned: the message was offered unless the connection failed.
  abbrev IsWire : List Effect → Option SendError → Type 0
  IsWire es e =
      (offered es ≡ true) × (w.send ≡ e) ⊎ (offered es ≡ false) × (w.connect ≢ none) × (e ≢ none)

  after_class-IsSound :
      (pol : Policy) (tr : TransportRow) (from_domain : String) (es : List Effect)
      (e : Option SendError) (h : HealthTracker) (f : Failure) (c : ErrorClass)
      → IsWire es e
      → (c ≡ ErrorClass.none) ↔ (e ≡ none)
      → IsSound (after_send cfg tenant system w d pol tr from_domain es (record f { class = c }) h)
  unfolding after_send send_result decided outcome_of
  after_class-IsSound pol tr from_domain es e h f ErrorClass.none k iff = ground (
    arith,
    decide_cases pol ErrorClass.none d.attempt_count w.finished,
    observe_lem ErrorClass.none tr h,
    offered-append es ((observe cfg tenant system w d ErrorClass.none tr h).1 ++ (marks_sent ∷ [])),
  )
  after_class-IsSound pol tr from_domain es e h f c k iff = ground (
    arith,
    decide_cases pol c d.attempt_count w.finished,
    observe_lem c tr h,
    offered-append es (observe cfg tenant system w d c tr h).1,
  )

  after_send-IsSound :
      (pol : Policy) (tr : TransportRow) (from_domain : String) (es : List Effect)
      (e : Option SendError) (h : HealthTracker)
      → IsWire es e
      → IsSound (after_send cfg tenant system w d pol tr from_domain es (classify e) h)
  after_send-IsSound pol tr from_domain es e h k =
      after_class-IsSound pol tr from_domain es e h (classify e) (classify e).class k
        (classify_none e)

  deliver-IsSound :
      (pol : Policy) (tr : TransportRow) (from_domain : String) (h : HealthTracker)
      → IsSound (deliver cfg tenant system w d pol tr from_domain h)
  unfolding deliver
  deliver-IsSound pol tr from_domain h =
      by_option IsSound w.connect _ _
        (λ e refused.
          by_test IsSound w.connect_done _ _ (defer_run-IsSound h "connect" (w.text_of e.text))
            (after_send-IsSound pol tr from_domain [] (some e) h (ground arith)))
        (λ reached. after_send-IsSound pol tr from_domain (offers ∷ []) w.send h (inl (refl, refl)))

  admit-IsSound :
      (pol : Policy) (tr : TransportRow) (from_domain : String) (h : HealthTracker)
      → IsSound (admit cfg tenant system w d pol tr from_domain h)
  unfolding admit
  admit-IsSound pol tr from_domain h =
      by_answer IsSound w.limiter _ _ (λ nf e. defer_run-IsSound h "rate limiter" e)
        (λ u.
          by_answer IsSound w.password _ _ (λ nf e. defer_run-IsSound h "transport password" e)
            (λ v. deliver-IsSound pol tr from_domain h))

  fail_result-IsSound :
      (h : HealthTracker) (c : ErrorClass) (code : ℕ) (msg : String) (now : Time)
      → IsSound (record {
        result = some (fail_result cfg.worker_id d c code msg now);
        health = h;
        effects = [];
      })
  unfolding fail_result
  fail_result-IsSound h c code msg now = ground arith

  plain_result-IsSound :
      (h : HealthTracker) (s : DeliveryStatus) (at : Time) (c : ErrorClass) (msg : String)
      → s ≢ DeliveryStatus.sent
      → IsSound (record {
        result = some (plain_result cfg.worker_id d s at c msg);
        health = h;
        effects = [];
      })
  unfolding plain_result
  plain_result-IsSound h s at c msg k = ground arith

  hook_failed-IsSound :
      (pol : Policy) (h : HealthTracker) (f : Outcome) (now : Time) (transport : String)
      → IsRetryable f.class
      → w.before_send ≢ hook_passes
      → IsSound (record {
        result = some (decided cfg.worker_id d pol f now transport);
        health = h;
        effects = [];
      })
  unfolding decided
  hook_failed-IsSound pol h f now transport k b =
      ground (arith, decide_cases pol f.class d.attempt_count now)

  by_hook :
      (P : Run → Type 0) (a : HookAnswer) (skipped passed : Run) (f : String → Run)
      → P skipped
      → ((e : String) → a ≢ hook_passes → P (f e))
      → P passed
      → P (elim a [ hook_skips ↦ skipped | hook_fails e ↦ f e | hook_passes ↦ passed ])
  by_hook P hook_passes skipped passed f h k l = l
  by_hook P hook_skips skipped passed f h k l = h
  by_hook P (hook_fails e) skipped passed f h k l = k e (ground arith)

  prepare-IsSound :
      (pol : Policy) (tr : TransportRow) (h : HealthTracker)
      → IsSound (prepare cfg tenant system w d pol tr h)
  unfolding prepare
  prepare-IsSound pol tr h =
      by_answer IsSound w.render _ _
        (λ nf e.
          by_test IsSound w.context_done _ _ (defer_run-IsSound h "render" e)
            (fail_result-IsSound h ErrorClass.permanent 0 e w.started))
        (λ from_domain.
          by_hook IsSound w.before_send _ _ _
            (plain_result-IsSound h DeliveryStatus.suppressed zero_time ErrorClass.none
              "skipped by BeforeSend" (ground arith))
            (λ e failed. hook_failed-IsSound pol h _ w.started tr.id tt failed)
            (by_answer IsSound w.build _ _
              (λ nf e. fail_result-IsSound h ErrorClass.permanent 0 e w.started)
              (λ u. admit-IsSound pol tr from_domain h)))

  route-IsSound :
      (pol : Policy) (tr : TransportRow) (h : HealthTracker)
      → IsSound (route cfg tenant system w d pol tr h)
  unfolding route
  route-IsSound pol tr h =
      let u = transport_usable (scope cfg tenant system w d tr) tr w.started h in
      by_test IsSound u.1 _ _ (prepare-IsSound pol tr u.0)
        (plain_result-IsSound u.0 DeliveryStatus.queued _ ErrorClass.auth _ (ground arith))

  check_suppression-IsSound :
      (settings : Settings) (tr : TransportRow) (h : HealthTracker)
      → IsSound (check_suppression cfg tenant system w d settings tr h)
  unfolding check_suppression internal_defer
  check_suppression-IsSound settings tr h =
      elim (suppression cfg tenant system w d settings tr)
        as (λ a. IsSound (elim a [
          | lost nf e ↦ record {
            result = some (internal_defer cfg.worker_id d e w.deferred_at);
            health = h;
            effects = [];
          }
          | got true ↦ record {
            result = some (
                plain_result cfg.worker_id d DeliveryStatus.suppressed zero_time ErrorClass.none
                  "address is suppressed");
            health = h;
            effects = [];
          }
          | got false ↦ route cfg tenant system w d (policy cfg settings) tr h
        ])) [
          | lost nf e ↦ ground arith
          | got true ↦
              plain_result-IsSound h DeliveryStatus.suppressed zero_time ErrorClass.none
                "address is suppressed" (ground arith)
          | got false ↦ route-IsSound (policy cfg settings) tr h
        ]

  resolve-IsSound :
      (settings : Settings) (version_id : String) (h : HealthTracker)
      → IsSound (resolve cfg tenant system w d settings version_id h)
  unfolding resolve
  resolve-IsSound settings version_id h =
      by_answer IsSound (w.version version_id) _ _
        (λ nf e. config_run-IsSound h "message version" nf e)
        (λ v.
          by_answer IsSound (w.sender d.sender_id) _ _ (λ nf e. config_run-IsSound h "sender" nf e)
            (λ snd.
              by_answer IsSound (w.transport snd.transport_id) _ _
                (λ nf e. config_run-IsSound h "transport" nf e)
                (λ tr.
                  by_domain IsSound (w.domain snd.domain_id) _ _
                    (λ e. defer_run-IsSound h "sending domain" e)
                    (check_suppression-IsSound settings tr h))))

  -- `process` never commits a result of another delivery or in another worker's name. It commits
  -- `sent` exactly if it offered the message to the relay and the relay accepted it; it commits
  -- nothing only if an accepted message's lease was found lost; and it consumes an attempt only if
  -- the message was offered, the connection failed or the host's hook did not pass.
  pub process_lem : (h : HealthTracker) → IsSound (process cfg tenant system w d h)
  unfolding process
  process_lem h =
      by_answer IsSound w.settings _ _ (λ nf e. defer_run-IsSound h "tenant settings" e)
        (λ settings.
          by_test IsSound (str_eq d.campaign_id "") _ _ (resolve-IsSound settings d.version_id h) (
            by_answer IsSound (w.campaign_version d.campaign_id) _ _
              (λ nf e. config_run-IsSound h "campaign" nf e) (λ v. resolve-IsSound settings _ h)))
