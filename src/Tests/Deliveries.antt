-- ===== src/Tests/Deliveries.antt =====
-- The delivery repository on the data of a small campaign.
use sendplane.Common.{
  ◌≤◌, ◌<◌, String, ◌≡◌, refl, ap, subst, ◌≢◌, ◌↔◌, ◌⊎◌, inl, true, false, [], ◌∷◌, none, some,
  arith, All, keys, contains, lookup, adjust, adjust_all, matching, sort, insert_sorted, limited,
  delete, eq_iff,
}
use sendplane.Store.Enums.{DeliveryStatus, ErrorClass}
use sendplane.Store.Errors.{StoreError, ok, err}
use sendplane.Store.Time.{truncate_time}
use sendplane.Store.Delivery.{Delivery, DeliveryResult, RetryFilter}
use sendplane.Memstore.{TenantData}
use sendplane.Memstore.Deliveries.Rows.{truncate_delivery, email_key}
use sendplane.Memstore.Deliveries.Claim.{claimed, candidate, claimable_status, claim_less}
use sendplane.Memstore.Deliveries.Insert.{insert_batch}
use sendplane.Memstore.Deliveries.Complete.{
  complete, complete_all, complete_one, apply_result, mark_sent, mark_terminal, terminal_row,
}
use sendplane.Memstore.Deliveries.Bulk.{
  release_expired_leases, lease_expired, released, change_chosen, chosen, delete_before,
  created_before, delete_rows, delete_row, drop_attempts,
}
use sendplane.Memstore.Deliveries.Valid.{IsValid}
use sendplane.Memstore.Deliveries.Leases.{
  IsDue, IsLeasedFrom, claim_exclusive, claim_returns_leases, candidate_iff,
}
use sendplane.Memstore.Deliveries.Order.{Precedes, claim_serves_in_order}
use sendplane.Memstore.Deliveries.Fencing.{bounce_survives_completion}
use sendplane.Memstore.Deliveries.Marking.{HoldsLease, mark_sent_owner}
use sendplane.Memstore.Deliveries.Ingest.{insert_batch_idem}
use sendplane.Memstore.Deliveries.Recovery.{expired_lease_recovers}
use sendplane.Memstore.Deliveries.Removal.{delete_before_removes, IsOfOther}
use sendplane.Memstore.Deliveries.History.{
  claims, completes, releases, run, run-IsValid, step, settle_unit, step-IsValid,
}
use sendplane.Memstore.Deliveries.Settled.{SameOutcome, settled_stays_settled}
use sendplane.Tests.Data.{
  row, empty, batch, history, claim_by, empty-IsValid, loaded, loaded-IsValid, leased_row,
  with_second, claimed_second, leased-IsValid, inserted,
}

abbrev leased : TenantData
leased = with_second (leased_row "w1")

run-IsValid_example : IsValid (run history empty)
run-IsValid_example = run-IsValid history empty empty-IsValid

-- The second claim of the same delivery, by another worker, at once.
claim_exclusive_example :
    contains (keys (claimed (claim_by "w2" 1 3_000_000) leased.deliveries)) "d2" ≡ false
unfolding claimed candidate claimable_status claim_less truncate_time matching sort insert_sorted
    limited
claim_exclusive_example =
    claim_exclusive (claim_by "w1" 1 3_000_000) (claim_by "w2" 1 3_000_000) loaded leased
      (leased_row "w1" ∷ []) "d2" loaded-IsValid claimed_second refl

claim_returns_leases_example :
    All (IsLeasedFrom (claim_by "w1" 1 3_000_000) loaded leased) (leased_row "w1" ∷ [])
claim_returns_leases_example =
    claim_returns_leases (claim_by "w1" 1 3_000_000) loaded leased (leased_row "w1" ∷ [])
      loaded-IsValid claimed_second

claim_serves_in_order_example :
    All
      (λ x. Precedes x.1 (row "d1" "a@x.org" 0))
      (claimed (claim_by "w1" 1 3_000_000) loaded.deliveries)
unfolding claimed candidate claimable_status claim_less truncate_time matching sort insert_sorted
    limited lookup
claim_serves_in_order_example =
    claim_serves_in_order (claim_by "w1" 1 3_000_000) loaded.deliveries "d1" (row "d1" "a@x.org" 0)
      loaded-IsValid.rows refl
      (record { same_lane = refl; due = ground arith; admitted = ground arith; waiting = inl refl })
      refl

insert_batch_idem_example : insert_batch batch 9_000_000 loaded ≡ ok (loaded, 0)
insert_batch_idem_example =
    insert_batch_idem batch 2_000_000 9_000_000 empty loaded 3 (ground (arith, eq_iff "c1" ""))
      inserted

-- The worker's completion of the delivery that it has leased, and the row that it leaves.
abbrev completion : String → DeliveryStatus → DeliveryResult
completion worker status = record {
  delivery_id = "d2";
  lease_owner = worker;
  new_status = status;
  next_attempt_at = 0;
  error_class = ErrorClass.none;
  smtp_code = 250;
  error = "";
  message_id = "d2@x.org";
  increment_attempt = false;
  attempt = none;
}

abbrev pub sent_second : Delivery
sent_second = record (leased_row "w1") {
  status = DeliveryStatus.sent;
  last_smtp_code = 250;
  message_id = "d2@x.org";
  sent_at = 4_000_000;
  finished_at = 4_000_000;
  lease_owner = "";
  lease_until = 0;
  updated_at = 4_000_000;
}

completed_second :
    complete (completion "w1" DeliveryStatus.sent ∷ []) 4_000_000 leased
    ≡ ok (with_second sent_second)
unfolding complete complete_all complete_one apply_result truncate_delivery truncate_time lookup
    adjust
completed_second = refl

pub sent-IsValid : IsValid (with_second sent_second)
unfolding step
sent-IsValid = subst IsValid (ap (settle_unit leased) completed_second) (
    step-IsValid (completes (completion "w1" DeliveryStatus.sent ∷ []) 4_000_000) leased
      leased-IsValid)

-- A later claim by another worker, and a second completion by the first.
settled_stays_settled_example :
    (e : Delivery) × (lookup "d2"
        (run
          (claims (claim_by "w2" 10 5_000_000)
            ∷ completes (completion "w1" DeliveryStatus.deferred ∷ []) 6_000_000
            ∷ releases 90_000_000 0
            ∷ [])
          (with_second sent_second)).deliveries
      ≡ some e)
    × SameOutcome sent_second e
unfolding lookup
settled_stays_settled_example =
    settled_stays_settled
      (claims (claim_by "w2" 10 5_000_000)
        ∷ completes (completion "w1" DeliveryStatus.deferred ∷ []) 6_000_000
        ∷ releases 90_000_000 0
        ∷ [])
      (with_second sent_second) "d2" sent_second (ground arith) sent-IsValid refl
      (record { final = refl; unowned = refl })

mark_sent_owner_example :
    let r = mark_sent "d2" "w1" "d2@x.org" 4_000_000 leased in
    ((lookup "d2" leased.deliveries ≡ none) × (r ≡ err StoreError.err_not_found))
    ⊎ ((d : Delivery) × (lookup "d2" leased.deliveries ≡ some d)
        × (HoldsLease "w1" d → ⊥)
        × (r ≡ err StoreError.err_lease_lost))
    ⊎ ((d : Delivery) × (lookup "d2" leased.deliveries ≡ some d)
        × HoldsLease "w1" d
        × ((s' : TenantData) × (r ≡ ok s')
            × ((e : Delivery) × (lookup "d2" s'.deliveries ≡ some e)
                × (e.status ≡ DeliveryStatus.sent)
                × (e.message_id ≡ "d2@x.org")
                × (e.lease_owner ≡ "w1"))))
mark_sent_owner_example = mark_sent_owner "d2" "w1" "d2@x.org" 4_000_000 leased refl

-- A bounce reaches the sent delivery before the worker's completion is repeated.
bounce_survives_completion_example :
    (d : Delivery) × (lookup "d2"
        (with_second (terminal_row DeliveryStatus.bounced 5_000_000 sent_second)).deliveries
      ≡ some d)
    × (d.status ≡ DeliveryStatus.bounced)
unfolding mark_terminal terminal_row truncate_delivery truncate_time lookup adjust complete
    complete_all complete_one
bounce_survives_completion_example =
    bounce_survives_completion "d2" DeliveryStatus.bounced 5_000_000 6_000_000
      (completion "w1" DeliveryStatus.sent ∷ []) (with_second sent_second)
      (with_second (terminal_row DeliveryStatus.bounced 5_000_000 sent_second))
      (with_second (terminal_row DeliveryStatus.bounced 5_000_000 sent_second)) refl refl

abbrev leased_of_c1 : RetryFilter
leased_of_c1 = record {
  campaign_id = "c1";
  delivery_ids = none;
  statuses = DeliveryStatus.leased ∷ [];
  error_classes = [];
  now = 4_000_000;
}

-- The worker dies; the lease runs out at 63 ms, and a release at 70 ms frees the delivery.
expired_lease_recovers_example :
    (e : Delivery) × (lookup "d2" (with_second (released 70_000_000 (leased_row "w1"))).deliveries
      ≡ some e)
    × IsDue (claim_by "w2" 5 71_000_000) e
    × (e.attempt_count ≡ 0)
unfolding release_expired_leases change_chosen chosen lease_expired released truncate_delivery
    truncate_time matching sort insert_sorted limited adjust_all adjust lookup
expired_lease_recovers_example =
    expired_lease_recovers 70_000_000 leased (with_second (released 70_000_000 (leased_row "w1"))) 1
      "d2" (leased_row "w1") (claim_by "w2" 5 71_000_000) leased-IsValid refl
      (record { is_leased = refl; has_term = λ e. ground arith; over = ground arith }) refl refl
      (ground arith) (ground arith)

-- Retention with a cutoff after the creation of the batch empties the campaign.
delete_before_removes_example :
    ((◌≡◌ {A = String} "c1" "c1")
      × (1_000_000 < truncate_time 2_000_000)
      × (lookup "d1" (record empty { deliveries = [] }).deliveries ≡ none)
      × All (IsOfOther "d1") [])
    ⊎ (((◌≢◌ {A = String} "c1" "c1") ⊎ (truncate_time 2_000_000 ≤ 1_000_000))
        × (lookup "d1" (record empty { deliveries = [] }).deliveries ≡ some (row "d1" "a@x.org" 0)))
unfolding delete_before chosen created_before delete_rows delete_row drop_attempts truncate_time
    matching sort insert_sorted limited delete lookup email_key
delete_before_removes_example =
    delete_before_removes "c1" 2_000_000 loaded empty 3 "d1" (row "d1" "a@x.org" 0) loaded-IsValid
      refl refl

candidate_iff_example :
    (candidate (claim_by "w1" 1 3_000_000) "d1" (row "d1" "a@x.org" 0) ≡ true)
    ↔ IsDue (claim_by "w1" 1 3_000_000) (row "d1" "a@x.org" 0)
candidate_iff_example = candidate_iff (claim_by "w1" 1 3_000_000) "d1" (row "d1" "a@x.org" 0)
