-- ===== src/Control/Evolution.antt =====
-- How one call of the control plane changes the campaign rows, when the row that it works from may
-- be older than the stored one.
use sendplane.Common.{
  ℕ, ◌≤◌, String, ◌≡◌, refl, sym, ap, subst, ◌∙◌, inl, inr, Bool, true, false, List, [], ◌∷◌,
  Option, none, some, str_eq, if◌then◌else◌, arith, Map, lookup, adjust, lookup-adjust,
  Option-cases, Bool-cases, eq_iff,
}
use sendplane.Store.Enums.{CampaignStatus, campaign_status_eq, DeliveryStatus}
use sendplane.Store.Errors.{StoreError, Result, ok, err, refuse_if, ◌>>◌}
use sendplane.Store.Time.{Time, truncate_time}
use sendplane.Store.Campaign.{Campaign, OutboxEvent}
use sendplane.Memstore.Tenant.{Tenant}
use sendplane.Memstore.Campaigns.{update_campaign, updated_campaign, truncate_campaign}
use sendplane.Memstore.Outbox.{enqueue, enqueue_all, enqueue_one}
use sendplane.Control.Campaign.{
  Outcome, done, refused, ◌then◌, lift, CampaignPayload, enqueue_campaign_event,
}

-- The edges of the campaign's state machine, and staying.
abbrev pub moves : CampaignStatus → CampaignStatus → Bool
moves CampaignStatus.draft CampaignStatus.scheduled = true
moves CampaignStatus.draft CampaignStatus.running = true
moves CampaignStatus.scheduled CampaignStatus.running = true
moves CampaignStatus.running CampaignStatus.paused = true
moves CampaignStatus.paused CampaignStatus.running = true
moves CampaignStatus.running CampaignStatus.completed = true
moves CampaignStatus.completed CampaignStatus.running = true
moves CampaignStatus.draft CampaignStatus.cancelled = true
moves CampaignStatus.scheduled CampaignStatus.cancelled = true
moves CampaignStatus.running CampaignStatus.cancelled = true
moves CampaignStatus.paused CampaignStatus.cancelled = true
moves a b = campaign_status_eq a b

-- A row after a call: the version never goes back, a new status has a new version, and the status
-- has moved along an edge at most.
abbrev pub IsEvolved : Campaign → Campaign → Type 0
IsEvolved r u =
    (r.version ≤ u.version)
    × (r.version ≡ u.version → r.status ≡ u.status)
    × (moves r.status u.status ≡ true)

abbrev pub EvolvedAt : Option Campaign → Option Campaign → Type 0
EvolvedAt none none = Unit
EvolvedAt (some r) (some u) = IsEvolved r u
EvolvedAt _ _ = ⊥

abbrev pub Evolves : Tenant → Tenant → Type 0
Evolves s t = (j : String) → EvolvedAt (lookup j s.campaigns) (lookup j t.campaigns)

-- A row that was read before: the stored row is no older, and of the same status if it is of the
-- same version.
abbrev pub IsRead : Campaign → Tenant → Type 0
IsRead c s =
    (row : Campaign)
    → lookup c.id s.campaigns ≡ some row
    → (c.version ≤ row.version) × (row.version ≡ c.version → row.status ≡ c.status)

EvolvedAt-refl : (o : Option Campaign) → EvolvedAt o o
EvolvedAt-refl none = tt
EvolvedAt-refl (some r) = ground arith

pub Evolves-refl : (s t : Tenant) → s.campaigns ≡ t.campaigns → Evolves s t
Evolves-refl s t e j =
    subst (λ m. EvolvedAt (lookup j s.campaigns) (lookup j m)) e
      (EvolvedAt-refl (lookup j s.campaigns))

read_later :
    (c : Campaign) (o p : Option Campaign)
    → EvolvedAt o p
    → ((row : Campaign)
        → o ≡ some row
        → (c.version ≤ row.version) × (row.version ≡ c.version → row.status ≡ c.status))
    → (row : Campaign) → p ≡ some row
    → (c.version ≤ row.version) × (row.version ≡ c.version → row.status ≡ c.status)
read_later c none none v h row e = h row e
read_later c none (some u) v h row e = absurd v
read_later c (some r) none v h row e = absurd v
read_later c (some r) (some u) v h row e = ground (arith, h r refl)

-- What was read stays read.
pub IsRead-Evolves : (c : Campaign) (s t : Tenant) → Evolves s t → IsRead c s → IsRead c t
IsRead-Evolves c s t v h =
    read_later c (lookup c.id s.campaigns) (lookup c.id t.campaigns) (v c.id) h

-- What holds of the data after a call that is not refused.
abbrev pub IfDone : {A : Type 0} → (A → Type 0) → Outcome A → Type 0
IfDone P (done a) = P a
IfDone P (refused e) = Unit

pub IfDone-then :
    {A B : Type 0} (P : B → Type 0) (o : Outcome A) (k : A → Outcome B)
    → ((a : A) → o ≡ done a → IfDone P (k a))
    → IfDone P (o then k)
IfDone-then P (done a) k h = h a refl
IfDone-then P (refused e) k h = tt

-- A changed row that has evolved, among rows that stay.
EvolvedAt-adjust :
    (k j : String) (f : Campaign → Campaign) (m : Map Campaign) (row : Campaign)
    → lookup k m ≡ some row
    → IsEvolved row (f row)
    → EvolvedAt (lookup j m) (lookup j (adjust k f m))
EvolvedAt-adjust k j f m row at evolved = elim (Bool-cases (str_eq k j)) [
  | inl same ↦
      let key : k ≡ j = (eq_iff k j).0 same in
      let here : lookup j m ≡ some row = ap (λ i. lookup i m) (sym key) ∙ at in
      let after : lookup j (adjust k f m) ≡ some (f row) = ground (arith, lookup-adjust k j f m) in
      subst (λ o. EvolvedAt o (lookup j (adjust k f m))) (sym here)
        (subst (λ o. EvolvedAt (some row) o) (sym after) evolved)
  | inr other ↦
      let kept : lookup j m ≡ lookup j (adjust k f m) = ground (arith, lookup-adjust k j f m) in
      subst (λ o. EvolvedAt (lookup j m) o) kept (EvolvedAt-refl (lookup j m))
]

module _ (s : Tenant) (clock : Time) (c d : Campaign) where
  -- An update that is done has found the row in the version of the caller's.
  update_inv :
      (t : Tenant)
      → update_campaign d clock s ≡ ok t
      → (row : Campaign) × (lookup d.id s.campaigns ≡ some row)
        × (row.version ≡ d.version)
        × (t.campaigns ≡ adjust d.id (λ r. updated_campaign s clock row d) s.campaigns)
  unfolding update_campaign
  update_inv t e = elim (Option-cases (lookup d.id s.campaigns)) [
    | inl gone ↦ absurd (ground arith)
    | inr (row, found) ↦ (row, found, ground arith, ground arith)
  ]

  IsEvolved-row :
      (row : Campaign)
      → IsRead c s
      → lookup c.id s.campaigns ≡ some row
      → row.version ≡ c.version
      → moves c.status d.status ≡ true
      → IsEvolved row (updated_campaign s clock row d)
  unfolding updated_campaign truncate_campaign
  IsEvolved-row row h at same move = ground (arith, h row at)

  -- An update that is done stores a new version of the row that was read, with the new status.
  pub update_campaign-Evolves :
      (t : Tenant)
      → IsRead c s
      → d.id ≡ c.id
      → d.version ≡ c.version
      → moves c.status d.status ≡ true
      → update_campaign d clock s ≡ ok t
      → Evolves s t
  update_campaign-Evolves t h same version move e j =
      let (row, found, current, rows) = update_inv t e in
      let at : lookup c.id s.campaigns ≡ some row =
        ap (λ i. lookup i s.campaigns) (sym same) ∙ found in
      let evolved = IsEvolved-row row h at (current ∙ version) move in
      subst (λ m. EvolvedAt (lookup j s.campaigns) (lookup j m)) (sym rows)
        (EvolvedAt-adjust d.id j (λ r. updated_campaign s clock row d) s.campaigns row found
          evolved)

-- The outbox is beside the campaigns.
enqueue_all-campaigns :
    (now : Time) (es : List OutboxEvent) (s : Tenant)
    → (enqueue_all now es s).campaigns ≡ s.campaigns
unfolding enqueue_all enqueue_one
enqueue_all-campaigns now [] s = refl
enqueue_all-campaigns now (e ∷ es) s = enqueue_all-campaigns now es (enqueue_one now e s)

IfDone-guarded :
    {A : Type 0} (P : A → Type 0) (b : Bool) (e : StoreError) (x : A)
    → P x
    → IfDone P (lift (refuse_if b e >> ok x))
IfDone-guarded P true e x h = tt
IfDone-guarded P false e x h = h

pub enqueue_event-campaigns :
    (marshal : CampaignPayload → String) (c : Campaign) (typ : String) (now : Time)
    (counts : Option (DeliveryStatus → ℕ)) (clock : Time) (s : Tenant)
    → IfDone
        (λ t. t.campaigns ≡ s.campaigns)
        (enqueue_campaign_event marshal c typ now counts clock s)
unfolding enqueue_campaign_event enqueue
enqueue_event-campaigns marshal c typ now counts clock s =
    IfDone-guarded (λ t. t.campaigns ≡ s.campaigns) s.base.closed StoreError.err_closed _
      (enqueue_all-campaigns (truncate_time clock) _ s)

pub lift_inv : {A : Type 0} (r : Result A) (a : A) → lift r ≡ done a → r ≡ ok a
lift_inv (ok x) a e = ground arith
lift_inv (err x) a e = absurd (ground arith)

pub IfDone-Evolves :
    (s t : Tenant) (o : Outcome Tenant)
    → Evolves s t
    → IfDone (λ u. u.campaigns ≡ t.campaigns) o
    → IfDone (Evolves s) o
IfDone-Evolves s t (done u) v e =
    λ j. subst (λ m. EvolvedAt (lookup j s.campaigns) (lookup j m)) (sym e) (v j)
IfDone-Evolves s t (refused e) v h = tt

-- The end of every verb: the row is written under its version, and then the event.
pub written-Evolves :
    (marshal : CampaignPayload → String) (c d : Campaign) (typ : String) (now clock : Time)
    (counts : Option (DeliveryStatus → ℕ)) (s : Tenant)
    → IsRead c s
    → d.id ≡ c.id
    → d.version ≡ c.version
    → moves c.status d.status ≡ true
    → IfDone (Evolves s) (
        lift (update_campaign d clock s) then λ t.
        enqueue_campaign_event marshal d typ now counts clock t)
written-Evolves marshal c d typ now clock counts s h same version move =
    IfDone-then (Evolves s) (lift (update_campaign d clock s)) _ (λ t e.
      IfDone-Evolves s t _
        (update_campaign-Evolves s clock c d t h same version move (lift_inv _ t e))
        (enqueue_event-campaigns marshal d typ now counts clock t))
