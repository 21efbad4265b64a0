-- ===== src/Sender/Suppression.antt =====
-- A suppressed address is not sent to.
use sendplane.Common.{String, ◌≡◌, refl, ◌≢◌, Bool, true, false, str_eq, arith}
use sendplane.Store.Enums.{Lane}
use sendplane.Store.Delivery.{Delivery}
use sendplane.Sender.Health.{HealthTracker, TransportRow}
use sendplane.Sender.Process.{
  Answer, got, lost, Settings, Config, World, Run, defer_run, config_run, suppression,
  check_suppression, resolve, process,
}
use sendplane.Sender.Outcomes.{offered, by_answer, by_test, by_domain}

-- What holds of both branches on an answer, as the answer is, holds of the run.
by_answer_eq :
    {A : Type 0} (P : Run → Type 0) (a : Answer A) (f : Bool → String → Run) (g : A → Run)
    → ((nf : Bool) (e : String) → P (f nf e))
    → ((x : A) → a ≡ got x → P (g x))
    → P (elim a [ lost nf e ↦ f nf e | got x ↦ g x ])
by_answer_eq P (lost nf e) f g hf hg = hf nf e
by_answer_eq P (got x) f g hf hg = hg x refl

module _ (cfg : Config) (tenant system : String) (w : World) (d : Delivery) where
  abbrev IsUnsent : Run → Type 0
  IsUnsent r = offered r.effects ≡ false

  defer_run-IsUnsent :
      (h : HealthTracker) (what e : String) → IsUnsent (defer_run cfg tenant system w d h what e)
  unfolding defer_run
  defer_run-IsUnsent h what e = refl

  config_run-IsUnsent :
      (h : HealthTracker) (what : String) (nf : Bool) (e : String)
      → IsUnsent (config_run cfg tenant system w d h what nf e)
  unfolding config_run
  config_run-IsUnsent h what nf e = refl

  module _ (settings : Settings) (on : settings.suppression_enabled ≡ true)
      (lane : d.lane ≢ Lane.probe) (listed : w.suppressed ≡ got true) where
    check_suppression-IsUnsent :
        (tr : TransportRow) (h : HealthTracker)
        → IsUnsent (check_suppression cfg tenant system w d settings tr h)
    unfolding check_suppression suppression
    check_suppression-IsUnsent tr h = ground arith

    resolve-IsUnsent :
        (version_id : String) (h : HealthTracker)
        → IsUnsent (resolve cfg tenant system w d settings version_id h)
    unfolding resolve
    resolve-IsUnsent version_id h =
        by_answer IsUnsent (w.version version_id) _ _
          (λ nf e. config_run-IsUnsent h "message version" nf e)
          (λ v.
            by_answer IsUnsent (w.sender d.sender_id) _ _
              (λ nf e. config_run-IsUnsent h "sender" nf e)
              (λ snd.
                by_answer IsUnsent (w.transport snd.transport_id) _ _
                  (λ nf e. config_run-IsUnsent h "transport" nf e)
                  (λ tr.
                    by_domain IsUnsent (w.domain snd.domain_id) _ _
                      (λ e. defer_run-IsUnsent h "sending domain" e)
                      (check_suppression-IsUnsent tr h))))

  -- With suppression enabled in the tenant's settings, a delivery of another lane than the probe's
  -- whose address is on the tenant's list is never offered to the relay.
  pub suppressed_not_offered :
      (settings : Settings) (h : HealthTracker)
      → w.settings ≡ got settings
      → settings.suppression_enabled ≡ true
      → d.lane ≢ Lane.probe
      → w.suppressed ≡ got true
      → offered (process cfg tenant system w d h).effects ≡ false
  unfolding process
  suppressed_not_offered settings h e on lane listed =
      by_answer_eq IsUnsent w.settings _ _ (λ nf x. defer_run-IsUnsent h "tenant settings" x)
        (λ found here.
          let still : found.suppression_enabled ≡ true = ground arith in
          by_test IsUnsent (str_eq d.campaign_id "") _ _
            (resolve-IsUnsent found still lane listed d.version_id h)
            (by_answer IsUnsent (w.campaign_version d.campaign_id) _ _
              (λ nf x. config_run-IsUnsent h "campaign" nf x)
              (λ v. resolve-IsUnsent found still lane listed _ h)))
