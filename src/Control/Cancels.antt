-- ===== src/Control/Cancels.antt =====
-- internal/control/campaign_loops.go: what the canceller's ticks do to the rows of a campaign.
use sendplane.Common.{
  ℕ, ◌+◌, String, ◌≡◌, ◌⊎◌, Bool, true, false, ◌&&◌, List, [], ◌∷◌, Map, str_eq, if◌then◌else◌,
}
use sendplane.Store.Enums.{DeliveryStatus}
use sendplane.Store.Time.{Time, truncate_time}
use sendplane.Store.Delivery.{Delivery}
use sendplane.Store.Campaign.{Campaign}
use sendplane.Memstore.{TenantData}
use sendplane.Memstore.Tenant.{Tenant}
use sendplane.Memstore.Deliveries.Bulk.{change_chosen, transition_matches, transitioned}
use sendplane.Control.Campaign.{Outcome, done, ◌then◌}
use sendplane.Control.Loops.{cancellable_statuses, cancel_one}

-- The statuses in which a delivery waits to be sent.
abbrev pub is_waiting : DeliveryStatus → Bool
is_waiting DeliveryStatus.pending = true
is_waiting DeliveryStatus.queued = true
is_waiting DeliveryStatus.deferred = true
is_waiting _ = false

abbrev pub waits_in : String → Delivery → Bool
waits_in id d = str_eq d.campaign_id id && is_waiting d.status

-- The number of rows of a campaign that wait to be sent.
abbrev pub waiting_rows : String → Map Delivery → ℕ
waiting_rows id [] = 0
waiting_rows id ((k, d) ∷ rows) = (if waits_in id d then 1 else 0) + waiting_rows id rows

-- A row stayed as it was, or it waited in the campaign and is cancelled.
abbrev pub KeptOrCancelled : String → Delivery → Delivery → Type 0
KeptOrCancelled id d e =
    (e ≡ d)
    ⊎ ((d.campaign_id ≡ id)
        × (is_waiting d.status ≡ true)
        × (e.status ≡ DeliveryStatus.cancelled)
        × (e.id ≡ d.id)
        × (e.campaign_id ≡ id))

module _ (id : String) where
  abbrev takes : String → Delivery → Bool
  takes = transition_matches id cancellable_statuses DeliveryStatus.cancelled

  -- One tick on the rows.
  abbrev ticked : ℕ → Time → TenantData → TenantData
  ticked chunk clock s =
      (change_chosen takes chunk (transitioned DeliveryStatus.cancelled (truncate_time clock)) s).0

-- The canceller's ticks on a campaign that it lists, at the given times.
abbrev pub cancel_ticks : ℕ → Campaign → List Time → Tenant → Outcome Tenant
cancel_ticks chunk cam [] s = done s
cancel_ticks chunk cam (clock ∷ clocks) s =
    cancel_one chunk cam clock s then λ t. cancel_ticks chunk cam clocks t
