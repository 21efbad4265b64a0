-- ===== src/Control/LoopSteps.antt =====
-- The loops' work on one campaign, as steps of the campaign's life.
use sendplane.Common.{
  ℕ, String, ◌≡◌, refl, sym, subst, inl, inr, Bool, true, false, ◌||◌, not, [], ◌∷◌, Option, none,
  some, str_eq, if◌then◌else◌, arith, ltb, ◌==◌, Map, lookup, adjust, Option-cases, Bool-cases,
}
use sendplane.Store.Enums.{CampaignStatus, campaign_status_eq, DeliveryStatus}
use sendplane.Store.Errors.{StoreError, Result, ok, err}
use sendplane.Store.Time.{Time, zero_time, is_zero, after, truncate_time}
use sendplane.Store.Delivery.{RetryFilter}
use sendplane.Store.Campaign.{Campaign, CampaignStats}
use sendplane.Memstore.{TenantData}
use sendplane.Memstore.Tenant.{Tenant}
use sendplane.Memstore.Campaigns.{update_campaign, update_stats}
use sendplane.Memstore.Deliveries.Bulk.{count_by_status, bulk_transition}
use sendplane.Control.Campaign.{
  Outcome, done, refused, ControlError, ◌then◌, lift, CampaignPayload, resolve_campaign_version,
}
use sendplane.Control.Retry.{
  retry_read, Retried, retryable_campaign, retry_chunks, completed_filter, selects_nothing,
  max_retry_chunks,
}
use sendplane.Control.Loops.{
  unless_raced, logged, schedule_one, finalize_one, complete_campaign, cancel_one, FinalizerConfig,
  UniqueCounts, skips_of, stats_of, cancellable_statuses,
}
use sendplane.Control.Evolution.{
  EvolvedAt, Evolves, IsRead, Evolves-refl, IsRead-Evolves, IfDone, IfDone-then,
  update_campaign-Evolves, enqueue_event-campaigns, written-Evolves,
}
use sendplane.Control.Lifecycle.{IfDone-at, IfDone-test, IsBound, resolve-IsBound}

IfDone-unless_raced :
    {A : Type 0} (P : A → Type 0) (r : Result Tenant) (x : A) (next : Tenant → Outcome A)
    → P x
    → ((t : Tenant) → r ≡ ok t → IfDone P (next t))
    → IfDone P (unless_raced r x next)
IfDone-unless_raced P (ok t) x next h k = k t refl
IfDone-unless_raced P (err StoreError.err_conflict) x next h k = h
IfDone-unless_raced P (err StoreError.err_not_found) x next h k = h
IfDone-unless_raced P (err e) x next h k = tt

logged-Evolves :
    (s t : Tenant) (o : Outcome Tenant)
    → Evolves s t
    → IfDone (λ u. u.campaigns ≡ t.campaigns) o
    → Evolves s (logged t o)
logged-Evolves s t (done u) v e =
    λ j. subst (λ m. EvolvedAt (lookup j s.campaigns) (lookup j m)) (sym e) (v j)
logged-Evolves s t (refused e) v h = v

by_outcome :
    {A B : Type 0} (P : B → Type 0) (o : Outcome A) (f : A → Outcome B) (q : Outcome B)
    → ((a : A) → o ≡ done a → IfDone P (f a))
    → IfDone P q
    → IfDone P (elim o [ refused e ↦ q | done a ↦ f a ])
by_outcome P (done a) f q h k = h a refl
by_outcome P (refused e) f q h k = k

-- Only the stats of rows have changed, not their versions or statuses.
abbrev SameAt : Option Campaign → Option Campaign → Type 0
SameAt none none = Unit
SameAt (some r) (some u) = (r.version ≡ u.version) × (r.status ≡ u.status)
SameAt _ _ = ⊥

SameAt-refl : (o : Option Campaign) → SameAt o o
SameAt-refl none = tt
SameAt-refl (some r) = (refl, refl)

EvolvedAt-SameAt : (o p q : Option Campaign) → SameAt o p → EvolvedAt p q → EvolvedAt o q
EvolvedAt-SameAt none none q same v = v
EvolvedAt-SameAt none (some u) q same v = absurd same
EvolvedAt-SameAt (some r) none q same v = absurd same
EvolvedAt-SameAt (some r) (some u) none same v = absurd v
EvolvedAt-SameAt (some r) (some u) (some w) same v = ground arith

update_stats_inv :
    (id : String) (stats : CampaignStats) (clock : Time) (s t : Tenant)
    → update_stats id stats clock s ≡ ok t
    → t.campaigns
      ≡ adjust id (λ r. record r { stats = stats; updated_at = truncate_time clock }) s.campaigns
unfolding update_stats
update_stats_inv id stats clock s t e = elim (Option-cases (lookup id s.campaigns)) [
  | inl gone ↦ absurd (ground arith)
  | inr (row, found) ↦ ground arith
]

SameAt-adjust :
    (k j : String) (f : Campaign → Campaign) (m : Map Campaign)
    → ((r : Campaign) → ((f r).version ≡ r.version) × ((f r).status ≡ r.status))
    → SameAt (lookup j m) (lookup j (adjust k f m))
unfolding lookup adjust
SameAt-adjust k j f [] keeps = tt
SameAt-adjust k j f ((i, r) ∷ m) keeps = elim (Bool-cases (str_eq i k)) [
  | inl here ↦ rw here (elim (Bool-cases (str_eq i j)) [
    | inl this ↦ rw this (sym (keeps r).0, sym (keeps r).1)
    | inr other ↦ rw other (SameAt-refl (lookup j m))
  ])
  | inr later ↦ rw later (elim (Bool-cases (str_eq i j)) [
    | inl this ↦ rw this (refl, refl)
    | inr other ↦ rw other (SameAt-adjust k j f m keeps)
  ])
]

update_stats-SameAt :
    (id : String) (stats : CampaignStats) (clock : Time) (s t : Tenant)
    → update_stats id stats clock s ≡ ok t
    → (j : String) → SameAt (lookup j s.campaigns) (lookup j t.campaigns)
update_stats-SameAt id stats clock s t e j =
    subst (λ m. SameAt (lookup j s.campaigns) (lookup j m))
      (sym (update_stats_inv id stats clock s t e))
      (SameAt-adjust id j _ s.campaigns (λ r. (refl, refl)))

module _ (marshal : CampaignPayload → String) (now clock : Time) (c : Campaign) (s : Tenant)
    (h : IsRead c s) where
  pub schedule_one-Evolves :
      c.status ≡ CampaignStatus.scheduled → IfDone (Evolves s) (schedule_one marshal c now clock s)
  unfolding schedule_one
  schedule_one-Evolves scheduled =
      IfDone-test (Evolves s) (after c.schedule_at now) _ _ (Evolves-refl s s refl) (
        by_outcome (Evolves s) (resolve_campaign_version s c) _ _
          (λ d e.
            let bound = IfDone-at (IsBound c) _ d (resolve-IsBound s c) e in
            let running : Campaign = record d {
              status = CampaignStatus.running;
              started_at = if is_zero d.started_at then now else d.started_at;
            } in
            IfDone-unless_raced (Evolves s) (update_campaign running clock s) s _
              (Evolves-refl s s refl)
              (λ t w.
                logged-Evolves s t _
                  (update_campaign-Evolves s clock c running t h bound.0 bound.1 (ground arith) w)
                  (enqueue_event-campaigns marshal running "campaign.started" now none clock t)))
          (Evolves-refl s s refl))

  complete_campaign-Evolves :
      (stats : CampaignStats) (skips : Map ℕ)
      → c.status ≡ CampaignStatus.running
      → IfDone (λ r. Evolves s r.1) (complete_campaign marshal c stats now clock skips s)
  unfolding complete_campaign
  complete_campaign-Evolves stats skips running =
      let finished : Campaign = record c {
        stats = stats;
        status = CampaignStatus.completed;
        completed_at = now;
      } in
      IfDone-unless_raced (λ r. Evolves s r.1) (update_campaign finished clock s) (skips, s) _
        (Evolves-refl s s refl)
        (λ t w.
          logged-Evolves s t _
            (update_campaign-Evolves s clock c finished t h refl refl (ground arith) w)
            (enqueue_event-campaigns marshal finished "campaign.completed" now
              (some stats.by_status) clock t))

Evolves-SameAt :
    (s t u : Tenant)
    → ((j : String) → SameAt (lookup j s.campaigns) (lookup j t.campaigns))
    → Evolves t u
    → Evolves s u
Evolves-SameAt s t u same v j =
    EvolvedAt-SameAt (lookup j s.campaigns) (lookup j t.campaigns) (lookup j u.campaigns) (same j)
      (v j)

IfDone-weaken :
    {A : Type 0} (P Q : A → Type 0) (o : Outcome A)
    → ((a : A) → P a → Q a)
    → IfDone P o
    → IfDone Q o
IfDone-weaken P Q (done a) f h = f a h
IfDone-weaken P Q (refused e) f h = tt

either_way :
    {A : Type 0} (P : A → Type 0) (b : Bool) (x y : A)
    → P x
    → (b ≡ false → P y)
    → P (if b then x else y)
either_way P true x y h k = h
either_way P false x y h k = k refl

by_result :
    {A B : Type 0} (P : B → Type 0) (r : Result A) (f : StoreError → B) (g : A → B)
    → ((e : StoreError) → P (f e))
    → ((a : A) → P (g a))
    → P (elim r [ err e ↦ f e | ok a ↦ g a ])
by_result P (ok a) f g h k = k a
by_result P (err e) f g h k = h e

settled :
    {A B : Type 0} (P : A → Type 0) (Q : B → Type 0) (o : Outcome A) (f : A → B)
    (g : ControlError → B)
    → IfDone P o
    → ((a : A) → P a → Q (f a))
    → ((e : ControlError) → Q (g e))
    → Q (elim o [ done a ↦ f a | refused e ↦ g e ])
settled P Q (done a) f g h k l = k a h
settled P Q (refused e) f g h k l = l e

abbrev KeepsMoves : Tenant → Retried → Type 0
KeepsMoves s r = Evolves s r.tenant

module _ (marshal : CampaignPayload → String) (now clock : Time) (c : Campaign) (s : Tenant)
    (h : IsRead c s) where
  after_stats-Evolves :
      (stats : CampaignStats) (skips : Map ℕ) (idle : Bool) (t : Tenant)
      → c.status ≡ CampaignStatus.running
      → update_stats c.id stats clock s ≡ ok t
      → IfDone
          (λ r. Evolves s r.1)
          (if idle then done (skips, t) else complete_campaign marshal c stats now clock skips t)
  after_stats-Evolves stats skips idle t running e =
      let same = update_stats-SameAt c.id stats clock s t e in
      let kept = Evolves-SameAt s t t same (Evolves-refl t t refl) in
      IfDone-test (λ r. Evolves s r.1) idle _ _ kept
        (IfDone-weaken (λ r. Evolves t r.1) (λ r. Evolves s r.1) _
          (λ r v. Evolves-SameAt s t r.1 same v)
          (complete_campaign-Evolves marshal now clock c t (IsRead-Evolves c s t kept h) stats skips
            running))

  pub finalize_one-Evolves :
      (cfg : FinalizerConfig) (unique : Option UniqueCounts) (skips : Map ℕ)
      → c.status ≡ CampaignStatus.running
      → IfDone (λ r. Evolves s r.1) (finalize_one marshal cfg unique c now clock skips s)
  unfolding finalize_one
  finalize_one-Evolves cfg unique skips running =
      IfDone-test (λ r. Evolves s r.1) (ltb 0 (skips_of c.id skips)) _ _ (Evolves-refl s s refl)
        (IfDone-then (λ r. Evolves s r.1) (lift (count_by_status c.id s.base)) _
          (λ counts e.
            IfDone-unless_raced (λ r. Evolves s r.1)
              (update_stats c.id (stats_of counts unique now) clock s) _ _ (Evolves-refl s s refl)
              (λ t w. after_stats-Evolves (stats_of counts unique now) _ _ t running w)))

  pub retry_read-Evolves :
      (chunk : ℕ) (filter : RetryFilter)
      → Evolves s (retry_read marshal chunk filter now clock c s).tenant
  unfolding retry_read
  retry_read-Evolves chunk filter =
      let f = completed_filter c.id now filter in
      let same = Evolves-refl s s refl in
      let running : Campaign = record c {
        status = CampaignStatus.running;
        completed_at = zero_time;
      } in
      either_way (KeepsMoves s) (not (retryable_campaign c.status)) _ _ same (λ may.
        either_way (KeepsMoves s) (selects_nothing f) _ _ same (λ some_rows.
          by_result (KeepsMoves s) (retry_chunks max_retry_chunks f chunk 0 s.base) _ _ (λ e. same)
            (λ r.
              either_way (KeepsMoves s)
                (r.1 == 0 || not (campaign_status_eq c.status CampaignStatus.completed)) _ _ same
                (λ moved.
                  settled (Evolves s) (KeepsMoves s) _ _ _
                    (written-Evolves marshal c running "campaign.started" now clock none
                      (record s { base = r.0 }) h refl refl (ground arith))
                    (λ u v. v) (λ e. same)))))

pub cancel_one-Evolves :
    (chunk : ℕ) (c : Campaign) (clock : Time) (s : Tenant)
    → IfDone (Evolves s) (cancel_one chunk c clock s)
unfolding cancel_one
cancel_one-Evolves chunk c clock s =
    IfDone-then {A = TenantData × ℕ} (Evolves s)
      (lift (bulk_transition c.id cancellable_statuses DeliveryStatus.cancelled chunk clock s.base))
      _ (λ r e. Evolves-refl s (record s { base = r.0 }) refl)
