-- ===== src/Control/Schedule.antt =====
-- internal/control/campaign_loops.go: what a tick of the scheduler does to every campaign.
use sendplane.Common.{
  ℕ, ◌<◌, String, ◌≡◌, refl, sym, ap, subst, ◌∙◌, inl, inr, Bool, true, false, List, [], ◌∷◌, none,
  some, str_eq, arith, IsMap, lookup, if◌then◌else◌, contains, length, Bool-cases, str_lt_nil,
}
use sendplane.Store.Enums.{CampaignStatus, campaign_status_eq}
use sendplane.Store.Time.{Time}
use sendplane.Store.Campaign.{Campaign}
use sendplane.Memstore.Tenant.{Tenant}
use sendplane.Memstore.Campaigns.{rows_of, listed_ids}
use sendplane.Control.Campaign.{CampaignPayload}
use sendplane.Control.Walk.{WalkEnd, finished, Worked, walk_items, scheduler_tick}
use sendplane.Control.Paging.{
  IsKeyed, contains-listed_ids, count-listed_ids-le_one, walk_items-IsKept,
}
use sendplane.Control.OnePass.{ended, each_campaign_is_one_pass}
use sendplane.Control.Ticks.{promote, promote-IsLocal}
use sendplane.Control.Promotion.{is_due, HasStatusAt, walk_fine, walk-Fate}

-- The scheduled campaigns, as the tick lists them at first.
abbrev pub scheduled_ids : Tenant → List String
scheduled_ids s = listed_ids (CampaignStatus.scheduled ∷ []) "" s.campaigns

ended_fine : (w : Worked) → w.1 ≡ none → ended w ≡ (w.0, finished)
ended_fine (t, none) h = refl
ended_fine (t, some e) h = absurd (ground arith)

module _ (marshal : CampaignPayload → String) (ctx_done : ℕ → Bool) (page_size pages : ℕ)
    (now : Time) (clock : String → Time) (s : Tenant) where
  abbrev pass : Worked
  pass = walk_items (promote marshal now clock) (rows_of (scheduled_ids s) s.campaigns) s

  tick_is_pass :
      ((i : ℕ) → ctx_done i ≡ false)
      → s.base.closed ≡ false
      → IsMap s.campaigns
      → IsKeyed (scheduled_ids s) s.campaigns
      → length (scheduled_ids s) < pages
      → scheduler_tick marshal ctx_done page_size pages now clock s ≡ (pass.0, finished)
  unfolding scheduler_tick
  tick_is_pass live opened m keyed enough =
      each_campaign_is_one_pass (promote marshal now clock) ctx_done (CampaignStatus.scheduled ∷ [])
        page_size (promote-IsLocal marshal now clock) live pages 0 "" s opened m keyed enough
      ∙ ended_fine pass (walk_fine marshal now clock (scheduled_ids s) s.campaigns s opened)

  pass-HasStatusAt :
      (k : String) (c : Campaign)
      → s.base.closed ≡ false
      → IsMap s.campaigns
      → IsKeyed (scheduled_ids s) s.campaigns
      → lookup k s.campaigns ≡ some c
      → str_eq k "" ≡ false
      → str_eq c.version_id "" ≡ false
      → HasStatusAt k (if is_due now c then CampaignStatus.running else c.status) pass.0
  pass-HasStatusAt k c opened m keyed at named bound =
      let listed = contains-listed_ids (CampaignStatus.scheduled ∷ []) "" s.campaigns k m in
      elim (Bool-cases (campaign_status_eq c.status CampaignStatus.scheduled)) [
        | inl e ↦
            let in_list : contains (scheduled_ids s) k ≡ true = ground (arith, str_lt_nil k) in
            walk-Fate marshal now clock s.campaigns k c at (keyed k c in_list at) e bound
              (scheduled_ids s) s keyed in_list
              (count-listed_ids-le_one (CampaignStatus.scheduled ∷ []) "" s.campaigns k m) opened at
        | inr e ↦
            let kept =
              walk_items-IsKept (promote marshal now clock) (promote-IsLocal marshal now clock)
                (scheduled_ids s) s.campaigns s keyed in
            (c, kept.row k (ground arith) ∙ at, ground arith)
      ]

  -- A tick of the scheduler over any number of pages ends without an error, if the store stays open
  -- and the context is not done, and afterwards every campaign that has its version is running if it
  -- was scheduled for a time that has come, and has its old status if not. The rows stand under their
  -- identifiers, which are not empty, and one page more than there are scheduled campaigns is enough.
  pub scheduler_tick_promotes :
      (k : String) (c : Campaign)
      → ((i : ℕ) → ctx_done i ≡ false)
      → s.base.closed ≡ false
      → IsMap s.campaigns
      → IsKeyed (scheduled_ids s) s.campaigns
      → length (scheduled_ids s) < pages
      → lookup k s.campaigns ≡ some c
      → str_eq k "" ≡ false
      → str_eq c.version_id "" ≡ false
      → let r = scheduler_tick marshal ctx_done page_size pages now clock s in
        (r.1 ≡ finished)
        × HasStatusAt k (if is_due now c then CampaignStatus.running else c.status) r.0
  scheduler_tick_promotes k c live opened m keyed enough at named bound =
      let run = tick_is_pass live opened m keyed enough in
      (
        ap (λ (r : Tenant × WalkEnd). r.1) run,
        subst
            (λ (r : Tenant × WalkEnd).
              HasStatusAt k (if is_due now c then CampaignStatus.running else c.status) r.0)
            (sym run) (pass-HasStatusAt k c opened m keyed at named bound),
      )
