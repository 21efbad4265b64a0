-- ===== src/Tests/Walks.antt =====
-- A tick of the scheduler on three campaigns, one to a page.
use sendplane.Common.{
  ℕ, String, ◌≡◌, refl, Bool, false, ◌∷◌, [], arith, lookup, IsMap, eq_iff, matching, sort,
  insert_sorted,
}
use sendplane.Store.Enums.{CampaignStatus}
use sendplane.Store.Time.{Time}
use sendplane.Store.Campaign.{Campaign}
use sendplane.Memstore.Tenant.{Tenant}
use sendplane.Memstore.Campaigns.{listed_ids, rows_of}
use sendplane.Control.Walk.{finished, scheduler_tick, each_campaign, walk_items}
use sendplane.Control.Paging.{IsKeyed}
use sendplane.Control.OnePass.{ended, each_campaign_is_one_pass}
use sendplane.Control.Ticks.{promote, promote-IsLocal}
use sendplane.Control.Promotion.{HasStatusAt}
use sendplane.Control.Schedule.{scheduled_ids, scheduler_tick_promotes}
use sendplane.Tests.Data.{apart, empty}
use sendplane.Tests.Campaigns.{marshal, campaign}

abbrev planned : String → Time → Campaign
planned id at = record (campaign CampaignStatus.scheduled) { id = id; schedule_at = at }

-- The second is for a later time.
abbrev plans : Tenant
plans = record {
  base = empty;
  campaigns =
      ("c1", planned "c1" 2_000_000)
      ∷ ("c2", planned "c2" 9_000_000)
      ∷ ("c3", planned "c3" 3_000_000)
      ∷ [];
  senders = [];
  templates = [];
  outbox = [];
}

abbrev never : ℕ → Bool
never i = false

abbrev clock : String → Time
clock id = 5_000_000

plans-IsMap : IsMap plans.campaigns
plans-IsMap k =
    ground (arith, apart "c1" "c2" k refl, apart "c1" "c3" k refl, apart "c2" "c3" k refl)

plans-IsKeyed : IsKeyed (scheduled_ids plans) plans.campaigns
unfolding lookup
plans-IsKeyed k c h at = ground (arith, eq_iff "c1" k, eq_iff "c2" k, eq_iff "c3" k)

scheduled_three : scheduled_ids plans ≡ "c1" ∷ "c2" ∷ "c3" ∷ []
unfolding listed_ids matching sort insert_sorted
scheduled_three = refl

each_campaign_is_one_pass_example :
    each_campaign
      (promote marshal 5_000_000 clock)
      never
      (CampaignStatus.scheduled ∷ [])
      1
      4
      0
      ""
      plans
    ≡ ended (
        walk_items
          (promote marshal 5_000_000 clock)
          (rows_of (scheduled_ids plans) plans.campaigns)
          plans)
each_campaign_is_one_pass_example =
    each_campaign_is_one_pass (promote marshal 5_000_000 clock) never
      (CampaignStatus.scheduled ∷ []) 1 (promote-IsLocal marshal 5_000_000 clock) (λ i. refl) 4 0 ""
      plans refl plans-IsMap plans-IsKeyed (ground (arith, scheduled_three))

scheduler_tick_promotes_example :
    ((scheduler_tick marshal never 1 4 5_000_000 clock plans).1 ≡ finished)
    × HasStatusAt "c3" CampaignStatus.running
        (scheduler_tick marshal never 1 4 5_000_000 clock plans).0
unfolding lookup
scheduler_tick_promotes_example =
    scheduler_tick_promotes marshal never 1 4 5_000_000 clock plans "c3" (planned "c3" 3_000_000)
      (λ i. refl) refl plans-IsMap plans-IsKeyed (ground (arith, scheduled_three)) refl refl refl
