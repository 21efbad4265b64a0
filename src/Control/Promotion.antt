-- ===== src/Control/Promotion.antt =====
-- internal/control/campaign_loops.go: `scheduler.Tick`, over all the pages of its walk.
use sendplane.Common.{
  ◌≤◌, String, ◌≡◌, refl, sym, ap, subst, ◌∙◌, inl, inr, Bool, true, false, ◌&&◌, not, List, [],
  ◌∷◌, none, some, str_eq, eq_iff, arith, Map, lookup, adjust, if◌then◌else◌, count, contains,
  contains-count, Bool-cases, Option-cases, lookup_adjusted,
}
use sendplane.Store.Enums.{CampaignStatus, campaign_status_eq}
use sendplane.Store.Errors.{ok}
use sendplane.Store.Time.{Time, after}
use sendplane.Store.Campaign.{Campaign}
use sendplane.Memstore.Tenant.{Tenant}
use sendplane.Memstore.Campaigns.{update_campaign, updated_campaign, truncate_campaign, rows_of}
use sendplane.Control.Campaign.{
  Outcome, done, refused, CampaignPayload, enqueue_campaign_event, resolve_campaign_version,
}
use sendplane.Control.Loops.{schedule_one, unless_raced, logged}
use sendplane.Control.Walk.{Worked, worked, walk_items}
use sendplane.Control.Paging.{IsKeyed, walk_items-IsKept}
use sendplane.Control.Ticks.{
  promote, promote-IsLocal, promoted, announced, schedule_due, schedule_waits, event_leaves,
}

-- The campaign has its version and its time has come.
abbrev pub is_due : Time → Campaign → Bool
is_due now c = campaign_status_eq c.status CampaignStatus.scheduled && not (after c.schedule_at now)

-- The row of `k` has this status.
abbrev pub HasStatusAt : String → CampaignStatus → Tenant → Type 0
HasStatusAt k status s = (d : Campaign) × (lookup k s.campaigns ≡ some d) × (d.status ≡ status)

resolve_bound :
    (s : Tenant) (c : Campaign)
    → str_eq c.version_id "" ≡ false
    → resolve_campaign_version s c ≡ done c
unfolding resolve_campaign_version
resolve_bound s c h = ground arith

-- An update by the row as it was read succeeds.
update_read :
    (d row : Campaign) (clock : Time) (s : Tenant)
    → s.base.closed ≡ false
    → lookup d.id s.campaigns ≡ some row
    → row.version ≡ d.version
    → update_campaign d clock s
      ≡ ok (record s { campaigns = adjust d.id (λ r. updated_campaign s clock row d) s.campaigns })
unfolding update_campaign
update_read d row clock s opened at same = ground arith

updated-status :
    (s : Tenant) (clock : Time) (row d : Campaign)
    → (updated_campaign s clock row d).status ≡ d.status
unfolding updated_campaign truncate_campaign
updated-status s clock row d = refl

logged-campaigns :
    (t : Tenant) (o : Outcome Tenant)
    → ((u : Tenant) → o ≡ done u → u.campaigns ≡ t.campaigns)
    → (logged t o).campaigns ≡ t.campaigns
logged-campaigns t (done u) h = h u refl
logged-campaigns t (refused e) h = refl

module _ (marshal : CampaignPayload → String) (now : Time) (clock : String → Time) where
  abbrev pub work : Campaign → Tenant → Worked
  work = promote marshal now clock

  -- No failure stops the scheduler while the store is open.
  promote_fine : (c : Campaign) (s : Tenant) → s.base.closed ≡ false → (work c s).1 ≡ none
  unfolding schedule_one update_campaign
  promote_fine c s opened = ground arith

  announced-campaigns :
      (c b : Campaign) (t : Tenant) → (announced marshal now clock c b t).campaigns ≡ t.campaigns
  announced-campaigns c b t =
      logged-campaigns t
        (enqueue_campaign_event marshal (promoted marshal now clock b) "campaign.started" now none
          (clock c.id) t)
        (λ u h.
          (event_leaves marshal (promoted marshal now clock b) "campaign.started" now none
            (clock c.id) t u h).0)

  work_due :
      (c : Campaign) (s : Tenant)
      → s.base.closed ≡ false
      → lookup c.id s.campaigns ≡ some c
      → after c.schedule_at now ≡ false
      → str_eq c.version_id "" ≡ false
      → HasStatusAt c.id CampaignStatus.running (work c s).0
  work_due c s opened at time bound =
      let b = promoted marshal now clock c in
      let f = λ (r : Campaign). updated_campaign s (clock c.id) c b in
      let t : Tenant = record s { campaigns = adjust c.id f s.campaigns } in
      let next = announced marshal now clock c c in
      let step : work c s ≡ (next t, none) = ap (worked s) (
        schedule_due marshal now clock c c s time (resolve_bound s c bound)
        ∙ ap (λ r. unless_raced r s (λ u. done (next u)))
            (update_read b c (clock c.id) s opened at refl)) in
      (
        updated_campaign s (clock c.id) c b,
        ap (λ (w : Worked). lookup c.id w.0.campaigns) step
            ∙ ap (lookup c.id) (announced-campaigns c c t)
            ∙ lookup_adjusted c.id c.id f s.campaigns c refl at,
        updated-status s (clock c.id) c b,
      )

  work_waits : (c : Campaign) (s : Tenant) → after c.schedule_at now ≡ true → (work c s).0 ≡ s
  work_waits c s h = ap (λ o. (worked s o).0) (schedule_waits marshal now clock c s (inl h))

  -- The status of a listed campaign after the work on it.
  work-status :
      (c : Campaign) (s : Tenant)
      → s.base.closed ≡ false
      → lookup c.id s.campaigns ≡ some c
      → campaign_status_eq c.status CampaignStatus.scheduled ≡ true
      → str_eq c.version_id "" ≡ false
      → HasStatusAt c.id (if is_due now c then CampaignStatus.running else c.status) (work c s).0
  work-status c s opened at scheduled bound = elim (Bool-cases (after c.schedule_at now)) [
    | inr e ↦ let (d, x, y) = work_due c s opened at e bound in (d, x, ground arith)
    | inl e ↦
        (c, ap (λ (t : Tenant). lookup c.id t.campaigns) (work_waits c s e) ∙ at, ground arith)
  ]

  walk_next :
      (id : String) (ids : List String) (rows : Map Campaign) (d : Campaign) (s : Tenant)
      → lookup id rows ≡ some d
      → s.base.closed ≡ false
      → walk_items work (rows_of (id ∷ ids) rows) s
        ≡ walk_items work (rows_of ids rows) (work d s).0
  unfolding walk_items rows_of
  walk_next id ids rows d s at opened = ground (arith, promote_fine d s opened)

  walk_skips :
      (id : String) (ids : List String) (rows : Map Campaign)
      → lookup id rows ≡ none
      → rows_of (id ∷ ids) rows ≡ rows_of ids rows
  unfolding rows_of
  walk_skips id ids rows at = ground arith

  open_after :
      (d : Campaign) (s : Tenant) → s.base.closed ≡ false → (work d s).0.base.closed ≡ false
  open_after d s opened = (promote-IsLocal marshal now clock d s).opened ∙ opened

  -- A pass over listed campaigns comes to no error.
  pub walk_fine :
      (ids : List String) (rows : Map Campaign) (s : Tenant)
      → s.base.closed ≡ false
      → (walk_items work (rows_of ids rows) s).1 ≡ none
  unfolding walk_items rows_of
  walk_fine [] rows s opened = refl
  walk_fine (id ∷ ids) rows s opened = elim (Option-cases (lookup id rows)) [
    | inl e ↦
        ap (λ l. (walk_items work l s).1) (walk_skips id ids rows e) ∙ walk_fine ids rows s opened
    | inr (d, e) ↦
        ap (λ (w : Worked). w.1) (walk_next id ids rows d s e opened)
        ∙ walk_fine ids rows (work d s).0 (open_after d s opened)
  ]

  module _ (rows : Map Campaign) (k : String) (c : Campaign) (there : lookup k rows ≡ some c)
      (same : c.id ≡ k) (scheduled : campaign_status_eq c.status CampaignStatus.scheduled ≡ true)
      (bound : str_eq c.version_id "" ≡ false) where
    abbrev pub Fate : Tenant → Type 0
    Fate t = HasStatusAt k (if is_due now c then CampaignStatus.running else c.status) t

    -- The rest of a pass leaves a campaign that it does not list.
    rest_keeps :
        (ids : List String) (s : Tenant)
        → IsKeyed ids rows
        → contains ids k ≡ false
        → Fate s
        → Fate (walk_items work (rows_of ids rows) s).0
    rest_keeps ids s keyed out (d, at, st) = (
      d,
      (walk_items-IsKept work (promote-IsLocal marshal now clock) ids rows s keyed).row k out ∙ at,
      st,
    )

    work_here :
        (s : Tenant) → s.base.closed ≡ false → lookup k s.campaigns ≡ some c → Fate (work c s).0
    work_here s opened at =
        subst
          (λ (x : String).
            HasStatusAt x (if is_due now c then CampaignStatus.running else c.status) (work c s).0)
          same (work-status c s opened (ap (λ x. lookup x s.campaigns) same ∙ at) scheduled bound)

    pub walk-Fate :
        (ids : List String) (s : Tenant)
        → IsKeyed ids rows
        → contains ids k ≡ true
        → count k ids ≤ 1
        → s.base.closed ≡ false
        → lookup k s.campaigns ≡ some c
        → Fate (walk_items work (rows_of ids rows) s).0
    walk-Fate [] s keyed in_list once opened at = absurd (ground arith)
    walk-Fate (id ∷ ids) s keyed in_list once opened at =
        let keyed' : IsKeyed ids rows = λ j d h. keyed j d (ground arith) in
        elim (Option-cases (lookup id rows)) [
          | inl e ↦
              subst (λ l. Fate (walk_items work l s).0) (sym (walk_skips id ids rows e))
                (walk-Fate ids s keyed' (ground (arith, eq_iff id k)) (ground arith) opened at)
          | inr (d, e) ↦
              let named = keyed id d (ground (arith, eq_iff id id)) e in
              subst (λ (w : Worked). Fate w.0) (sym (walk_next id ids rows d s e opened))
                (elim (Bool-cases (str_eq id k)) [
                  | inl here ↦
                      let it : d ≡ c = ground (arith, eq_iff id k) in
                      subst
                        (λ (x : Campaign). Fate (walk_items work (rows_of ids rows) (work x s).0).0)
                        (sym it)
                        (rest_keeps ids (work c s).0 keyed' (ground (arith, contains-count ids k))
                          (work_here s opened at))
                  | inr other ↦
                      walk-Fate ids (work d s).0 keyed' (ground arith) (ground arith)
                        (open_after d s opened)
                        ((promote-IsLocal marshal now clock d s).row k
                            (ground (arith, eq_iff d.id k, eq_iff id k))
                          ∙ at)
                ])
        ]
