-- ===== src/Memstore/Deliveries/Claim.antt =====
-- store/memstore/delivery.go: `Claim`, which leases due rows to a worker.
use sendplane.Common.{
  ◌+◌, String, Bool, true, false, ◌&&◌, not, List, Option, none, some, str_eq, if◌then◌else◌,
  contains, Map, keys, values, matching, sort, limited, adjust_all, str_lt, ltb_ℤ, eqb_ℤ, ◌==◌, map,
}
use sendplane.Store.Enums.{DeliveryStatus, lane_eq}
use sendplane.Store.Errors.{Result, ok, ◌>>◌}
use sendplane.Store.Time.{before, after, truncate_time}
use sendplane.Store.Delivery.{Delivery, ClaimRequest}
use sendplane.Memstore.{TenantData, check}
use sendplane.Memstore.Deliveries.Rows.{truncate_delivery}

-- `campaigns[id]` on the set built from the request: nothing is in the nil map.
abbrev pub in_campaigns : Option (List String) → String → Bool
in_campaigns none id = false
in_campaigns (some ids) id = contains ids id

pending_claimable : DeliveryStatus → Bool → Bool
pending_claimable DeliveryStatus.queued named = true
pending_claimable DeliveryStatus.deferred named = true
pending_claimable DeliveryStatus.pending named = named
pending_claimable _ named = false

unfoldable pub claimable_status : Option (List String) → Delivery → Bool
unfolding pending_claimable
claimable_status campaigns d =
    pending_claimable d.status
      (not (str_eq d.campaign_id "") && in_campaigns campaigns d.campaign_id)

-- `campaigns != nil && d.CampaignID != "" && !campaigns[d.CampaignID]`
abbrev pub outside : Option (List String) → Delivery → Bool
outside none d = false
outside (some ids) d = not (str_eq d.campaign_id "") && not (contains ids d.campaign_id)

-- The candidate loop: a row that no `continue` drops.
unfoldable pub candidate : ClaimRequest → String → Delivery → Bool
candidate req key d =
    if not (lane_eq d.lane req.lane)
    then false
    else if not (claimable_status req.campaign_ids d)
    then false
    else if after d.next_attempt_at (truncate_time req.now)
    then false
    else not (outside req.campaign_ids d)

-- The order of the claim: priority first, then the longest due, then the oldest ID.
unfoldable pub claim_less : String × Delivery → String × Delivery → Bool
claim_less (i, a) (j, b) =
    if not (eqb_ℤ a.priority b.priority)
    then ltb_ℤ b.priority a.priority
    else if not (a.next_attempt_at == b.next_attempt_at)
    then before a.next_attempt_at b.next_attempt_at
    else str_lt a.id b.id

unfoldable pub lease : ClaimRequest → Delivery → Delivery
lease req d = truncate_delivery (record d {
  status = DeliveryStatus.leased;
  lease_owner = req.worker_id;
  lease_until = truncate_time req.now + req.lease_for;
  updated_at = truncate_time req.now;
})

-- The rows that a claim takes, with their keys.
unfoldable pub claimed : ClaimRequest → Map Delivery → Map Delivery
claimed req rows = limited req.limit (sort claim_less (matching (candidate req) rows))

unfoldable pub claim : ClaimRequest → TenantData → Result (TenantData × List Delivery)
claim req s = do
  check s
  let taken = claimed req s.deliveries
  ok (
    record s { deliveries = adjust_all (keys taken) (lease req) s.deliveries },
    map (lease req) (values taken),
  )
