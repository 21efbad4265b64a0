-- ===== src/Control/Completion.antt =====
-- When the finalizer completes a campaign: against the delivery rows themselves.
use sendplane.Common.{
  ℕ, ◌+◌, ◌-◌, String, ◌≡◌, refl, sym, ap, subst, ◌∙◌, Bool, true, false, ◌&&◌, ◌||◌, not, [], ◌∷◌,
  Option, some, str_eq, if◌then◌else◌, arith, ltb, ◌==◌, Map, lookup, insert, delete, adjust,
  lookup_adjusted,
}
use sendplane.Store.Enums.{CampaignStatus, DeliveryStatus, status_eq, terminal}
use sendplane.Store.Errors.{StoreError, Result, ok, err, refuse_if, ◌>>◌}
use sendplane.Store.Time.{Time, truncate_time}
use sendplane.Store.Delivery.{Delivery}
use sendplane.Store.Campaign.{Campaign, CampaignStats}
use sendplane.Memstore.Tenant.{Tenant}
use sendplane.Memstore.Campaigns.{
  update_campaign, updated_campaign, truncate_campaign, update_stats,
}
use sendplane.Memstore.Deliveries.Bulk.{count_by_status, count_status}
use sendplane.Control.Campaign.{Outcome, done, refused, ◌then◌, lift, CampaignPayload, split_counts}
use sendplane.Control.Loops.{
  unless_raced, logged, finalize_one, complete_campaign, FinalizerConfig, UniqueCounts, skips_of,
  stats_of,
}
use sendplane.Control.Evolution.{IfDone, enqueue_event-campaigns}

-- The rows of a campaign, and those of them that are in no final status.
abbrev pub rows_of_campaign : String → Map Delivery → ℕ
rows_of_campaign id [] = 0
rows_of_campaign id ((k, d) ∷ rows) =
    (if str_eq d.campaign_id id then 1 else 0) + rows_of_campaign id rows

abbrev pub open_rows : String → Map Delivery → ℕ
open_rows id [] = 0
open_rows id ((k, d) ∷ rows) =
    (if str_eq d.campaign_id id && not (terminal d.status) then 1 else 0) + open_rows id rows

-- A row is in exactly one status.
abbrev one_of : Bool → DeliveryStatus → DeliveryStatus → ℕ
one_of b s t = if b && status_eq s t then 1 else 0

one_status :
    (b : Bool) (s : DeliveryStatus)
    → let inflight =
        one_of b s DeliveryStatus.pending
        + one_of b s DeliveryStatus.queued
        + one_of b s DeliveryStatus.leased
        + one_of b s DeliveryStatus.deferred in
      (inflight ≡ (if b && not (terminal s) then 1 else 0))
      × (inflight
            + one_of b s DeliveryStatus.sent
            + one_of b s DeliveryStatus.failed
            + one_of b s DeliveryStatus.bounced
            + one_of b s DeliveryStatus.complained
            + one_of b s DeliveryStatus.suppressed
            + one_of b s DeliveryStatus.cancelled
          ≡ (if b then 1 else 0))
one_status true s = ground arith
one_status false s = (refl, refl)

-- The counts that the finalizer takes are those of the rows.
split_counts_lem :
    (id : String) (rows : Map Delivery)
    → let r = split_counts (λ st. count_status id st rows) in
      (r.0 ≡ rows_of_campaign id rows) × (r.1 ≡ open_rows id rows)
unfolding split_counts count_status
split_counts_lem id [] = (refl, refl)
split_counts_lem id ((k, d) ∷ rows) =
    let one = one_status (str_eq d.campaign_id id) d.status in
    let rest = split_counts_lem id rows in
    (omega (arith, one.0, one.1, rest.0), omega (arith, one.0, rest.1))

-- A call that is done, with data of which something holds.
abbrev pub IsDone : {A : Type 0} → (A → Type 0) → Outcome A → Type 0
IsDone P (done a) = P a
IsDone P (refused e) = ⊥

-- The row of a campaign has a status.
abbrev pub HasStatus : String → CampaignStatus → Tenant → Type 0
HasStatus id st t = (u : Campaign) × (lookup id t.campaigns ≡ some u) × (u.status ≡ st)

logged-HasStatus :
    (id : String) (st : CampaignStatus) (t : Tenant) (o : Outcome Tenant)
    → HasStatus id st t
    → IfDone (λ u. u.campaigns ≡ t.campaigns) o
    → HasStatus id st (logged t o)
logged-HasStatus id st t (done u) (r, at, is) e = (r, ap (λ m. lookup id m) e ∙ at, is)
logged-HasStatus id st t (refused e) h k = h

IsDone-unless_raced :
    {A : Type 0} (P : A → Type 0) (r : Result Tenant) (x : A) (next : Tenant → Outcome A)
    (t : Tenant)
    → r ≡ ok t
    → IsDone P (next t)
    → IsDone P (unless_raced r x next)
IsDone-unless_raced P (ok u) x next t e h = subst (λ v. IsDone P (next v)) (ok_inj t u (sym e)) h
  where
    ok_inj : (x y : Tenant) → ◌≡◌ {A = Result Tenant} (ok x) (ok y) → x ≡ y
    ok_inj x y q = ground arith
IsDone-unless_raced P (err x) y next t e h = absurd (ground arith)

IsDone-skip :
    {A : Type 0} (P : A → Type 0) (b : Bool) (o q : Outcome A)
    → b ≡ false
    → IsDone P q
    → IsDone P (if b then o else q)
IsDone-skip P true o q e h = absurd (ground arith)
IsDone-skip P false o q e h = h

IsDone-then :
    {A B : Type 0} (P : B → Type 0) (o : Outcome A) (k : A → Outcome B) (a : A)
    → o ≡ done a
    → IsDone P (k a)
    → IsDone P (o then k)
IsDone-then P o k a e h = subst (λ x. IsDone P (x then k)) (sym e) h

module _ (marshal : CampaignPayload → String) (now clock : Time) (c : Campaign) (s : Tenant)
    (row : Campaign) (live : s.base.closed ≡ false) (at : lookup c.id s.campaigns ≡ some row) where
  update_campaign-HasStatus :
      (d : Campaign)
      → d.id ≡ c.id
      → row.version ≡ d.version
      → (t : Tenant) × (update_campaign d clock s ≡ ok t) × HasStatus c.id d.status t
  unfolding update_campaign updated_campaign truncate_campaign
  update_campaign-HasStatus d same version =
      let t : Tenant = record s {
        campaigns = adjust d.id (λ r. updated_campaign s clock row d) s.campaigns;
      } in
      (
        t,
        ground (arith, ap (λ i. lookup i s.campaigns) same),
        (updated_campaign s clock row d, lookup_adjusted d.id c.id _ s.campaigns row same at, refl),
      )

  complete_campaign-HasStatus :
      (stats : CampaignStats) (skips : Map ℕ)
      → row.version ≡ c.version
      → IsDone
          (λ r. HasStatus c.id CampaignStatus.completed r.1)
          (complete_campaign marshal c stats now clock skips s)
  unfolding complete_campaign
  complete_campaign-HasStatus stats skips version =
      let finished : Campaign = record c {
        stats = stats;
        status = CampaignStatus.completed;
        completed_at = now;
      } in
      let (t, e, has) = update_campaign-HasStatus finished refl version in
      IsDone-unless_raced (λ r. HasStatus c.id CampaignStatus.completed r.1)
        (update_campaign finished clock s) (skips, s) _ t e
        (logged-HasStatus c.id CampaignStatus.completed t _ has (
          enqueue_event-campaigns marshal finished "campaign.completed" now (some stats.by_status)
            clock t))

-- The status that the finalizer leaves a running campaign in, by the rows of the campaign.
abbrev pub verdict : ℕ → ℕ → CampaignStatus
verdict total inflight =
    if total == 0 || ltb 0 inflight then CampaignStatus.running else CampaignStatus.completed

-- The tick is done, and leaves the campaign in a status.
abbrev pub Leaves : String → Outcome (Map ℕ × Tenant) → CampaignStatus → Type 0
Leaves id o st = IsDone (λ r. HasStatus id st r.1) o

module _ (marshal : CampaignPayload → String) (now clock : Time) (c : Campaign) (s : Tenant)
    (live : s.base.closed ≡ false) (at : lookup c.id s.campaigns ≡ some c)
    (running : c.status ≡ CampaignStatus.running) where
  abbrev with_stats : CampaignStats → Tenant
  with_stats stats = record s {
    campaigns =
        adjust c.id (λ r. record r { stats = stats; updated_at = truncate_time clock }) s.campaigns;
  }

  update_stats-ok :
      (stats : CampaignStats) → update_stats c.id stats clock s ≡ ok (with_stats stats)
  unfolding update_stats
  update_stats-ok stats = ground arith

  after_stats-HasStatus :
      (stats : CampaignStats) (skips : Map ℕ) (idle : Bool)
      → IsDone
          (λ r.
            HasStatus c.id (if idle then CampaignStatus.running else CampaignStatus.completed) r.1)
          (if idle
            then done (skips, with_stats stats)
            else complete_campaign marshal c stats now clock skips (with_stats stats))
  after_stats-HasStatus stats skips true =
      (_, lookup_adjusted c.id c.id _ s.campaigns c refl at, running)
  after_stats-HasStatus stats skips false =
      complete_campaign-HasStatus marshal now clock c (with_stats stats) _ live
        (lookup_adjusted c.id c.id _ s.campaigns c refl at) stats skips refl

  -- On a store that is not closed, and a running campaign whose row is the one listed and whose
  -- recount is not skipped, the finalizer's work is done, and it leaves the campaign completed
  -- exactly if the campaign has delivery rows and all of them are in a final status, and else
  -- running.
  pub finalize_completes_iff :
      (cfg : FinalizerConfig) (unique : Option UniqueCounts) (skips : Map ℕ)
      → skips_of c.id skips ≡ 0
      → Leaves c.id
          (finalize_one marshal cfg unique c now clock skips s)
          (verdict (rows_of_campaign c.id s.base.deliveries) (open_rows c.id s.base.deliveries))
  unfolding finalize_one count_by_status
  finalize_completes_iff cfg unique skips due =
      let rows = s.base.deliveries in
      let counts : DeliveryStatus → ℕ = λ st. count_status c.id st rows in
      let stats = stats_of counts unique now in
      let (total, inflight) = split_counts_lem c.id rows in
      IsDone-skip _ (ltb 0 (skips_of c.id skips)) _ _ (ground arith) (
        IsDone-then _ (lift (count_by_status c.id s.base)) _ counts
          (ap (λ b. lift (refuse_if b StoreError.err_closed >> ok counts)) live)
          (IsDone-unless_raced _ (update_stats c.id stats clock s) _ _ (with_stats stats)
            (update_stats-ok stats)
            (subst (λ n. Leaves c.id (work counts stats) (verdict n (open_rows c.id rows))) total
              (subst (λ n. Leaves c.id (work counts stats) (verdict (split_counts counts).0 n))
                inflight
                (after_stats-HasStatus stats _
                  ((split_counts counts).0 == 0 || ltb 0 (split_counts counts).1))))))
    where
      kept : (DeliveryStatus → ℕ) → Map ℕ
      kept counts =
          if ltb cfg.large_campaign_rows (split_counts counts).0 && ltb 1 cfg.large_campaign_every
          then insert c.id (cfg.large_campaign_every - 1) skips
          else delete c.id skips

      work : (DeliveryStatus → ℕ) → CampaignStats → Outcome (Map ℕ × Tenant)
      work counts stats =
          if (split_counts counts).0 == 0 || ltb 0 (split_counts counts).1
          then done (kept counts, with_stats stats)
          else complete_campaign marshal c stats now clock (kept counts) (with_stats stats)
