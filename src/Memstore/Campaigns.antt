-- ===== src/Memstore/Campaigns.antt =====
-- store/memstore/table.go, at the campaign table, and the campaign repository of repos.go: an update
-- is refused when the row's version is not the one that the caller has read.
use sendplane.Common.{
  ℕ, suc, String, Bool, false, ◌&&◌, ◌||◌, not, List, [], ◌∷◌, none, some, str_lt, if◌then◌else◌,
  ◌==◌, Map, lookup, insert, adjust, keys, matching, sort_strings, length, take, ltb, last_of,
}
use sendplane.Store.Enums.{CampaignStatus, campaign_status_eq}
use sendplane.Store.Errors.{Result, StoreError, ok, err, ◌>>◌}
use sendplane.Store.Time.{Time, is_zero, truncate_time}
use sendplane.Store.Campaign.{Campaign, CampaignStats}
use sendplane.Memstore.{check, id_or_new, issued_for}
use sendplane.Memstore.Tenant.{Tenant}

unfoldable pub truncate_campaign : Campaign → Campaign
truncate_campaign c = record c {
  created_at = truncate_time c.created_at;
  updated_at = truncate_time c.updated_at;
  schedule_at = truncate_time c.schedule_at;
  started_at = truncate_time c.started_at;
  completed_at = truncate_time c.completed_at;
}

-- table.Create, at campaigns.
unfoldable pub create_campaign : Campaign → Time → Tenant → Result Tenant
create_campaign c clock s = do
  check s.base
  let id = id_or_new s.base c.id
  elim (lookup id s.campaigns) [
    | some row ↦ err StoreError.err_conflict
    | none ↦ ok (record s {
      base = record s.base { issued = issued_for s.base c.id };
      campaigns =
          insert id
            (truncate_campaign (record c {
              id = id;
              tenant_id = s.base.tenant;
              created_at = if is_zero c.created_at then truncate_time clock else c.created_at;
              updated_at = truncate_time clock;
              version = 1;
            }))
            s.campaigns;
    })
  ]

-- table.Get
unfoldable pub get_campaign : String → Tenant → Result Campaign
get_campaign id s = do
  check s.base
  elim (lookup id s.campaigns) [ none ↦ err StoreError.err_not_found | some c ↦ ok c ]

-- The row that an update stores over the current one.
unfoldable pub updated_campaign : Tenant → Time → Campaign → Campaign → Campaign
updated_campaign s clock row c = truncate_campaign (record c {
  version = suc row.version;
  tenant_id = s.base.tenant;
  created_at = row.created_at;
  updated_at = truncate_time clock;
})

-- table.Update, at campaigns.
unfoldable pub update_campaign : Campaign → Time → Tenant → Result Tenant
update_campaign c clock s = do
  check s.base
  elim (lookup c.id s.campaigns) [
    | none ↦ err StoreError.err_not_found
    | some row ↦
        if not (row.version == c.version)
        then err StoreError.err_conflict
        else ok
            (record s { campaigns = adjust c.id (λ r. updated_campaign s clock row c) s.campaigns })
  ]

-- campaignRepo.UpdateStats: the version stays.
unfoldable pub update_stats : String → CampaignStats → Time → Tenant → Result Tenant
update_stats id stats clock s = do
  check s.base
  elim (lookup id s.campaigns) [
    | none ↦ err StoreError.err_not_found
    | some row ↦ ok (record s {
      campaigns =
          adjust id (λ r. record r { stats = stats; updated_at = truncate_time clock }) s.campaigns;
    })
  ]

abbrev pub has_status : List CampaignStatus → Campaign → Bool
has_status [] c = false
has_status (st ∷ statuses) c = campaign_status_eq c.status st || has_status statuses c

unfoldable pub rows_of : List String → Map Campaign → List Campaign
rows_of [] m = []
rows_of (id ∷ ids) m = elim (lookup id m) [ none ↦ rows_of ids m | some c ↦ c ∷ rows_of ids m ]

-- The identifiers after the cursor of the campaigns in one of the statuses, in their order.
unfoldable pub listed_ids : List CampaignStatus → String → Map Campaign → List String
listed_ids statuses cursor rows =
    sort_strings (keys (matching (λ id c. str_lt cursor id && has_status statuses c) rows))

abbrev pub default_page_limit : ℕ
default_page_limit = 50

abbrev pub max_page_limit : ℕ
max_page_limit = 1000

-- `Page.Normalize`, on the limit.
unfoldable pub page_limit : ℕ → ℕ
page_limit limit =
    if limit == 0
    then default_page_limit
    else if ltb max_page_limit limit
    then max_page_limit
    else limit

-- campaignRepo.ListByStatus, one page: the rows after the cursor in the order of their IDs, and the
-- next cursor, empty on the last page.
unfoldable pub list_by_status :
    List CampaignStatus → String → ℕ → Tenant → Result (List Campaign × String)
list_by_status statuses cursor limit s = do
  check s.base
  let ids = listed_ids statuses cursor s.campaigns
  let n = page_limit limit
  ok (
      if ltb n (length ids)
      then (rows_of (take n ids) s.campaigns, last_of "" (take n ids))
      else (rows_of ids s.campaigns, ""))
