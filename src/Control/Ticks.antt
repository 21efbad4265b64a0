-- ===== src/Control/Ticks.antt =====
-- internal/control/campaign_loops.go: the ticks of the scheduler and of the canceller.
use sendplane.Common.{
  ℕ, ◌≤◌, String, ◌≡◌, refl, sym, ap, subst, ◌∙◌, inl, inr, ◌⊎◌, true, false, List, [], ◌∷◌, Option,
  none, arith, IsMap, lookup, adjust, lookup-adjust, keys-adjust, count, if◌then◌else◌, Bool-cases,
  Option-cases,
}
use sendplane.Store.Enums.{CampaignStatus, DeliveryStatus}
use sendplane.Store.Errors.{StoreError, Result, ok, err}
use sendplane.Store.Time.{Time, after, is_zero}
use sendplane.Store.Campaign.{Campaign}
use sendplane.Memstore.Tenant.{Tenant}
use sendplane.Memstore.Outbox.{enqueue, enqueue_all, enqueue_one}
use sendplane.Memstore.Campaigns.{update_campaign, updated_campaign}
use sendplane.Control.Campaign.{
  Outcome, done, refused, ControlError, CampaignPayload, enqueue_campaign_event,
  resolve_campaign_version,
}
use sendplane.Control.Loops.{schedule_one, unless_raced, logged}
use sendplane.Control.Walk.{Worked, worked}
use sendplane.Control.Paging.{IsKept, IsLocal}

Outcome-cases :
    {A : Type 0} (o : Outcome A) → ((a : A) × (o ≡ done a)) ⊎ ((e : ControlError) × (o ≡ refused e))
Outcome-cases (done a) = inl (a, refl)
Outcome-cases (refused e) = inr (e, refl)

resolve-id : (s : Tenant) (c b : Campaign) → resolve_campaign_version s c ≡ done b → b.id ≡ c.id
unfolding resolve_campaign_version
resolve-id s c b h = ground arith

pub event_leaves :
    (marshal : CampaignPayload → String) (c : Campaign) (typ : String) (now : Time)
    (counts : Option (DeliveryStatus → ℕ)) (clock : Time) (t u : Tenant)
    → enqueue_campaign_event marshal c typ now counts clock t ≡ done u
    → (u.campaigns ≡ t.campaigns) × (u.base.closed ≡ t.base.closed)
unfolding enqueue_campaign_event enqueue enqueue_all enqueue_one
event_leaves marshal c typ now counts clock t u h = ground arith

update_campaign-IsKept :
    (c : Campaign) (clock : Time) (s t : Tenant)
    → update_campaign c clock s ≡ ok t
    → IsKept (c.id ∷ []) s t
unfolding update_campaign
update_campaign-IsKept c clock s t h = elim (Option-cases (lookup c.id s.campaigns)) [
  | inl e ↦ absurd (ground arith)
  | inr (row, e) ↦
      let same : t
          ≡ record s { campaigns = adjust c.id (λ r. updated_campaign s clock row c) s.campaigns } =
        ground arith in
      subst (IsKept (c.id ∷ []) s) (sym same) (record {
        row = λ k h.
            ground (arith, lookup-adjust c.id k (λ r. updated_campaign s clock row c) s.campaigns);
        opened = refl;
        mapped = λ m k.
            subst (λ l. count k l ≤ 1)
              (sym (keys-adjust c.id (λ r. updated_campaign s clock row c) s.campaigns)) (m k);
      })
]

IsKept-same :
    (ids : List String) (s t u : Tenant)
    → IsKept ids s t
    → (u.campaigns ≡ t.campaigns) × (u.base.closed ≡ t.base.closed)
    → IsKept ids s u
IsKept-same ids s t u a h = record {
  row = λ k c. ap (lookup k) h.0 ∙ a.row k c;
  opened = h.1 ∙ a.opened;
  mapped = λ m. subst IsMap (sym h.0) (a.mapped m);
}

unchanged : (ids : List String) (s : Tenant) → IsKept ids s s
unchanged ids s = record { row = λ k h. refl; opened = refl; mapped = λ m. m }

logged-IsKept :
    (ids : List String) (s t : Tenant) (o : Outcome Tenant)
    → IsKept ids s t
    → ((u : Tenant) → o ≡ done u → (u.campaigns ≡ t.campaigns) × (u.base.closed ≡ t.base.closed))
    → IsKept ids s (logged t o)
logged-IsKept ids s t (done u) a h = IsKept-same ids s t u a (h u refl)
logged-IsKept ids s t (refused e) a h = a

unless_raced-IsKept :
    (ids : List String) (s : Tenant) (r : Result Tenant) (next : Tenant → Tenant)
    → ((t : Tenant) → r ≡ ok t → IsKept ids s (next t))
    → IsKept ids s (worked s (unless_raced r s (λ t. done (next t)))).0
unless_raced-IsKept ids s (ok t) next h = h t refl
unless_raced-IsKept ids s (err StoreError.err_conflict) next h = unchanged ids s
unless_raced-IsKept ids s (err StoreError.err_not_found) next h = unchanged ids s
unless_raced-IsKept ids s (err e) next h = unchanged ids s

module _ (marshal : CampaignPayload → String) (now : Time) (clock : String → Time) where
  -- What the scheduler does with a listed campaign.
  abbrev pub promote : Campaign → Tenant → Worked
  promote c t = worked t (schedule_one marshal c now (clock c.id) t)

  abbrev pub promoted : Campaign → Campaign
  promoted b = record b {
    status = CampaignStatus.running;
    started_at = if is_zero b.started_at then now else b.started_at;
  }

  abbrev pub announced : Campaign → Campaign → Tenant → Tenant
  announced c b t =
      logged t
        (enqueue_campaign_event marshal (promoted b) "campaign.started" now none (clock c.id) t)

  pub schedule_due :
      (c b : Campaign) (s : Tenant)
      → after c.schedule_at now ≡ false
      → resolve_campaign_version s c ≡ done b
      → schedule_one marshal c now (clock c.id) s
        ≡ unless_raced (update_campaign (promoted b) (clock c.id) s) s (λ t. done (announced c b t))
  unfolding schedule_one
  schedule_due c b s e f = rw (e, f) refl

  pub schedule_waits :
      (c : Campaign) (s : Tenant)
      → (after c.schedule_at now ≡ true)
        ⊎ ((x : ControlError) × (resolve_campaign_version s c ≡ refused x))
      → schedule_one marshal c now (clock c.id) s ≡ done s
  unfolding schedule_one
  schedule_waits c s (inl e) = rw e refl
  schedule_waits c s (inr (x, f)) = ground arith

  promote_due-IsKept :
      (c b : Campaign) (s : Tenant)
      → b.id ≡ c.id
      → after c.schedule_at now ≡ false
      → resolve_campaign_version s c ≡ done b
      → IsKept (c.id ∷ []) s (promote c s).0
  promote_due-IsKept c b s same e f =
      subst (λ (o : Outcome Tenant). IsKept (c.id ∷ []) s (worked s o).0)
        (sym (schedule_due c b s e f))
        (unless_raced-IsKept (c.id ∷ []) s (update_campaign (promoted b) (clock c.id) s)
          (announced c b)
          (λ t h.
            logged-IsKept (c.id ∷ []) s t _
              (subst (λ (x : String). IsKept (x ∷ []) s t) same
                (update_campaign-IsKept (promoted b) (clock c.id) s t h))
              (λ u k.
                event_leaves marshal (promoted b) "campaign.started" now none (clock c.id) t u k)))

  pub promote-IsLocal : IsLocal promote
  promote-IsLocal c s =
      let stays = λ (h : schedule_one marshal c now (clock c.id) s ≡ done s).
        subst (λ (o : Outcome Tenant). IsKept (c.id ∷ []) s (worked s o).0) (sym h)
          (unchanged (c.id ∷ []) s) in
      elim (Bool-cases (after c.schedule_at now)) [
        | inl e ↦ stays (schedule_waits c s (inl e))
        | inr e ↦ elim (Outcome-cases (resolve_campaign_version s c)) [
          | inr f ↦ stays (schedule_waits c s (inr f))
          | inl (b, f) ↦ promote_due-IsKept c b s (resolve-id s c b f) e f
        ]
      ]
