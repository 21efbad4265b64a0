-- ===== src/Control/Lifecycle.antt =====
-- The campaign's life under any interleaving of the verbs and the loops: each works from a row that
-- it has read at some time before, as a handler of another replica or the leader would.
use sendplane.Common.{
  String, ◌≡◌, refl, subst, ◌⊎◌, inl, inr, Bool, true, false, ◌&&◌, not, Option, none, some, str_eq,
  if◌then◌else◌, arith, lookup,
}
use sendplane.Store.Enums.{CampaignStatus, campaign_status_eq}
use sendplane.Store.Time.{Time, truncate_time, is_zero, after}
use sendplane.Store.Campaign.{Campaign}
use sendplane.Memstore.{check}
use sendplane.Memstore.Tenant.{Tenant}
use sendplane.Memstore.Campaigns.{update_campaign}
use sendplane.Control.Campaign.{
  Outcome, done, refused, ControlError, ◌then◌, lift, require, CampaignPayload, startable, started,
  resolve_campaign_version, cancellable_campaign, start_read, pause_read, resume_read, cancel_read,
}
use sendplane.Control.Evolution.{
  Evolves, IsRead, IfDone, IfDone-then, update_campaign-Evolves, enqueue_event-campaigns,
  written-Evolves, lift_inv, IfDone-Evolves,
}

IfDone-require :
    {B : Type 0} (P : B → Type 0) (b : Bool) (e : ControlError) (o : Outcome B)
    → (b ≡ true → IfDone P o)
    → IfDone P (require b e then λ u. o)
IfDone-require P true e o h = h refl
IfDone-require P false e o h = tt

pub IfDone-at :
    {A : Type 0} (P : A → Type 0) (o : Outcome A) (a : A) → IfDone P o → o ≡ done a → P a
IfDone-at P (done b) a h e = subst P (ground arith) h
IfDone-at P (refused x) a h e = absurd (ground arith)

IfDone-always : {A : Type 0} (P : A → Type 0) (o : Outcome A) → ((a : A) → P a) → IfDone P o
IfDone-always P (done a) h = h a
IfDone-always P (refused e) h = tt

pub IfDone-test :
    {A : Type 0} (P : A → Type 0) (b : Bool) (o q : Outcome A)
    → IfDone P o
    → IfDone P q
    → IfDone P (if b then o else q)
IfDone-test P true o q h k = h
IfDone-test P false o q h k = k

IfDone-found :
    {A V : Type 0} (P : A → Type 0) (o : Option V) (f : V → Outcome A) (q : Outcome A)
    → ((v : V) → IfDone P (f v))
    → IfDone P q
    → IfDone P (elim o [ none ↦ q | some v ↦ f v ])
IfDone-found P none f q h k = k
IfDone-found P (some v) f q h k = h v

startable-draft :
    (s : Tenant) (c : Campaign) → IfDone (λ u. c.status ≡ CampaignStatus.draft) (startable s c)
unfolding startable
startable-draft s c =
    IfDone-require (λ u. c.status ≡ CampaignStatus.draft)
      (campaign_status_eq c.status CampaignStatus.draft) _ _
      (λ e. IfDone-always (λ u. c.status ≡ CampaignStatus.draft) _ (λ u. ground arith))

-- The row is bound to a version, and nothing else of it changes.
abbrev pub IsBound : Campaign → Campaign → Type 0
IsBound c d = (d.id ≡ c.id) × (d.version ≡ c.version) × (d.status ≡ c.status)

pub resolve-IsBound :
    (s : Tenant) (c : Campaign) → IfDone (IsBound c) (resolve_campaign_version s c)
unfolding resolve_campaign_version
resolve-IsBound s c =
    IfDone-test (IsBound c) (not (str_eq c.version_id "")) _ _ (refl, refl, refl)
      (IfDone-test (IsBound c) (str_eq c.template_id "") _ _ tt (
        IfDone-then (IsBound c) (lift (check s.base)) _ (λ u e.
          IfDone-found (IsBound c) (lookup c.template_id s.templates) _ _
            (λ v. IfDone-test (IsBound c) (str_eq v "") _ _ tt (refl, refl, refl)) tt)))

abbrev pub IsStarted : Campaign → Campaign → Type 0
IsStarted c d =
    (d.id ≡ c.id)
    × (d.version ≡ c.version)
    × ((d.status ≡ CampaignStatus.scheduled) ⊎ (d.status ≡ CampaignStatus.running))

started_lem :
    (s : Tenant) (now at : Time) (c : Campaign) → IfDone (IsStarted c) (started s now at c)
unfolding started
started_lem s now at c =
    IfDone-test (IsStarted c) (not (is_zero at) && after at now) _ _ (refl, refl, inl refl)
      (IfDone-then (IsStarted c) (resolve_campaign_version s c) _ (λ d e.
        let bound = IfDone-at (IsBound c) _ d (resolve-IsBound s c) e in
        (bound.0, bound.1, inr refl)))

module _ (marshal : CampaignPayload → String) (now clock : Time) (c : Campaign) (s : Tenant)
    (h : IsRead c s) where
  pub pause_read-Evolves : IfDone (Evolves s) (pause_read marshal now clock c s)
  unfolding pause_read
  pause_read-Evolves =
      IfDone-require (Evolves s) (campaign_status_eq c.status CampaignStatus.running) _ _ (λ e.
        written-Evolves marshal c (record c { status = CampaignStatus.paused }) "campaign.paused"
          now clock none s h refl refl (ground arith))

  pub resume_read-Evolves : IfDone (Evolves s) (resume_read marshal now clock c s)
  unfolding resume_read
  resume_read-Evolves =
      IfDone-require (Evolves s) (campaign_status_eq c.status CampaignStatus.paused) _ _ (λ e.
        written-Evolves marshal c
          (record c {
            status = CampaignStatus.running;
            started_at = if is_zero c.started_at then now else c.started_at;
          })
          "campaign.started" now clock none s h refl refl (ground arith))

  pub cancel_read-Evolves : IfDone (Evolves s) (cancel_read marshal now clock c s)
  unfolding cancel_read
  cancel_read-Evolves = IfDone-require (Evolves s) (cancellable_campaign c.status) _ _ (λ e.
      written-Evolves marshal c (record c { status = CampaignStatus.cancelled; completed_at = now })
        "campaign.cancelled" now clock none s h refl refl (ground arith))

  pub start_read-Evolves : (at : Time) → IfDone (Evolves s) (start_read marshal at now clock c s)
  unfolding start_read
  start_read-Evolves at = IfDone-then (Evolves s) (startable s c) _ (λ u ready.
      IfDone-then (Evolves s) (started s now (truncate_time at) c) _ (λ d e.
        let draft =
          IfDone-at (λ v. c.status ≡ CampaignStatus.draft) _ u (startable-draft s c) ready in
        let going = IfDone-at (IsStarted c) _ d (started_lem s now (truncate_time at) c) e in
        IfDone-then (Evolves s) (lift (update_campaign d clock s)) _ (λ t w.
          let evolved =
            update_campaign-Evolves s clock c d t h going.0 going.1 (ground arith)
              (lift_inv _ t w) in
          IfDone-test (Evolves s) (campaign_status_eq d.status CampaignStatus.running) _ _
            (IfDone-Evolves s t _ evolved
              (enqueue_event-campaigns marshal d "campaign.started" now none clock t))
            evolved)))
