-- ===== src/Memstore/Deliveries/Bulk.antt =====
-- store/memstore/delivery.go: the operations on many rows, each of which collects the keys of the
-- rows that match, sorts them, takes at most `limit`, and changes those rows.
use sendplane.Common.{
  ℕ, suc, ◌+◌, String, Bool, false, ◌||◌, ◌&&◌, not, List, [], ◌∷◌, Option, none, some, str_eq,
  if◌then◌else◌, contains, length, limited, ltb, Map, keys, lookup, delete, matching, adjust_all,
  sort_strings,
}
use sendplane.Store.Enums.{DeliveryStatus, status_eq, terminal}
use sendplane.Store.Errors.{Result, ok, ◌>>◌}
use sendplane.Store.Time.{Time, zero_time, is_zero, before, truncate_time}
use sendplane.Store.Delivery.{Delivery, DeliveryAttempt, RetryFilter}
use sendplane.Memstore.{TenantData, check}
use sendplane.Memstore.Deliveries.Rows.{email_key, truncate_delivery, match_status, match_class}

-- The keys that a bulk operation works on.
unfoldable pub chosen : (String → Delivery → Bool) → ℕ → Map Delivery → List String
chosen p limit rows = limited limit (sort_strings (keys (matching p rows)))

-- The rows that a bulk operation changes by `f`.
unfoldable pub change_chosen :
    (String → Delivery → Bool) → ℕ → (Delivery → Delivery) → TenantData → TenantData × ℕ
change_chosen p limit f s =
    let ids = chosen p limit s.deliveries in
    (record s { deliveries = adjust_all ids f s.deliveries }, length ids)

unfoldable pub lease_expired : Time → String → Delivery → Bool
lease_expired now id d = not (
    not (status_eq d.status DeliveryStatus.leased)
    || is_zero d.lease_until
    || not (before d.lease_until now))

unfoldable pub released : Time → Delivery → Delivery
released now d = truncate_delivery (record d {
  status = if ltb 0 d.attempt_count then DeliveryStatus.deferred else DeliveryStatus.queued;
  lease_owner = "";
  lease_until = zero_time;
  next_attempt_at = now;
  updated_at = now;
})

unfoldable pub release_expired_leases : Time → ℕ → TenantData → Result (TenantData × ℕ)
release_expired_leases now limit s = do
  check s
  ok (change_chosen (lease_expired (truncate_time now)) limit (released (truncate_time now)) s)

-- The counting loop of `CountByStatus`, for one status.
unfoldable pub count_status : String → DeliveryStatus → Map Delivery → ℕ
count_status campaign_id status [] = 0
count_status campaign_id status ((id, d) ∷ rows) =
    (if str_eq d.campaign_id campaign_id && status_eq d.status status then 1 else 0)
    + count_status campaign_id status rows

-- A status that the result map lacks has the count 0.
unfoldable pub count_by_status : String → TenantData → Result (DeliveryStatus → ℕ)
count_by_status campaign_id s = do
  check s
  ok (λ status. count_status campaign_id status s.deliveries)

unfoldable pub transition_matches :
    String → List DeliveryStatus → DeliveryStatus → String → Delivery → Bool
transition_matches campaign_id from to id d = not (
    not (str_eq d.campaign_id campaign_id)
    || not (match_status from d.status)
    || status_eq d.status to)

unfoldable pub transitioned : DeliveryStatus → Time → Delivery → Delivery
transitioned to now d = truncate_delivery (record d {
  status = to;
  finished_at = if terminal to then now else d.finished_at;
  updated_at = now;
})

unfoldable pub bulk_transition :
    String → List DeliveryStatus → DeliveryStatus → ℕ → Time → TenantData → Result (TenantData × ℕ)
bulk_transition campaign_id from to limit clock s = do
  check s
  ok (
      change_chosen (transition_matches campaign_id from to) limit
        (transitioned to (truncate_time clock)) s)

-- `only != nil && !only[id]`
unselected : Option (List String) → String → Bool
unselected none id = false
unselected (some ids) id = not (contains ids id)

unfoldable pub requeue_matches : RetryFilter → String → Delivery → Bool
unfolding unselected
requeue_matches f id d =
    if not (str_eq d.campaign_id f.campaign_id) || unselected f.delivery_ids id
    then false
    else not (
        not (match_status f.statuses d.status)
        || not (match_class f.error_classes d.last_error_class))

unfoldable pub requeued : Time → Delivery → Delivery
requeued at d = truncate_delivery (record d {
  status = DeliveryStatus.queued;
  retry_gen = suc d.retry_gen;
  next_attempt_at = at;
  lease_owner = "";
  lease_until = zero_time;
  finished_at = zero_time;
  updated_at = at;
})

unfoldable pub requeue : RetryFilter → ℕ → TenantData → Result (TenantData × ℕ)
requeue f limit s = do
  check s
  ok (change_chosen (requeue_matches f) limit (requeued (truncate_time f.now)) s)

unfoldable pub created_before : String → Time → String → Delivery → Bool
created_before campaign_id cutoff id d =
    not (not (str_eq d.campaign_id campaign_id) || not (before d.created_at cutoff))

-- The attempts of one delivery go with it.
unfoldable pub drop_attempts : String → Map DeliveryAttempt → Map DeliveryAttempt
drop_attempts id attempts = matching (λ aid a. not (str_eq a.delivery_id id)) attempts

unfoldable pub delete_row : String → TenantData → TenantData
delete_row id s = elim (lookup id s.deliveries) [
  | none ↦ s
  | some d ↦ record s {
    campaign_emails =
        if not (str_eq d.campaign_id "")
        then delete (email_key d.campaign_id d.email_norm) s.campaign_emails
        else s.campaign_emails;
    deliveries = delete id s.deliveries;
    attempts = drop_attempts id s.attempts;
  }
]

unfoldable pub delete_rows : List String → TenantData → TenantData
delete_rows [] s = s
delete_rows (id ∷ ids) s = delete_rows ids (delete_row id s)

unfoldable pub delete_before : String → Time → ℕ → TenantData → Result (TenantData × ℕ)
delete_before campaign_id cutoff limit s = do
  check s
  let ids = chosen (created_before campaign_id (truncate_time cutoff)) limit s.deliveries
  ok (delete_rows ids s, length ids)
