-- ===== src/Memstore/Deliveries/Recovery.antt =====
-- The leases of crashed workers come back, and requeueing and bulk transitions change the rows
-- that they name and no other.
use sendplane.Common.{
  ℕ, suc, ◌≤◌, ◌<◌, String, ◌≡◌, refl, sym, subst, ◌∙◌, ◌≢◌, ◌⊎◌, inl, inr, List, some, Bool, true,
  arith, eq_iff, if◌then◌else◌, IsMap, lookup, contains, Bool-cases,
}
use sendplane.Store.Enums.{DeliveryStatus, status_eq_iff}
use sendplane.Store.Errors.{ok}
use sendplane.Store.Time.{Time, truncate_time, truncate_time_mono, truncate_time_idem, zero_time}
use sendplane.Store.Delivery.{Delivery, ClaimRequest, RetryFilter}
use sendplane.Memstore.{TenantData}
use sendplane.Memstore.Deliveries.Rows.{truncate_delivery, match_status, match_class}
use sendplane.Memstore.Deliveries.Bulk.{
  change_chosen, chosen, lease_expired, released, release_expired_leases, transition_matches,
  transitioned, bulk_transition, requeue_matches, requeued, requeue,
}
use sendplane.Memstore.Deliveries.Valid.{IsValid, KeepsIdentity, adjust_all-IsValid}
use sendplane.Memstore.Deliveries.Chosen.{lookup-change_chosen, passes_of_chosen, chosen_of_passes}
use sendplane.Memstore.Deliveries.Leases.{IsDue, Admits}

-- What a bulk operation does to one row: it stays, or it matched and is changed.
pub change_chosen_cases :
    (p : String → Delivery → Bool) (limit : ℕ) (f : Delivery → Delivery) (s : TenantData)
    (j : String) (d : Delivery)
    → IsMap s.deliveries
    → lookup j s.deliveries ≡ some d
    → (lookup j (change_chosen p limit f s).0.deliveries ≡ some d)
      ⊎ ((p j d ≡ true) × (lookup j (change_chosen p limit f s).0.deliveries ≡ some (f d)))
change_chosen_cases p limit f s j d m h =
    elim (Bool-cases (contains (chosen p limit s.deliveries) j)) [
      | inr e ↦ inl (ground (arith, lookup-change_chosen p limit f s m j))
      | inl e ↦ inr (
        ground (arith, passes_of_chosen p limit s.deliveries m j e),
        ground (arith, lookup-change_chosen p limit f s m j),
      )
    ]

-- Without a limit every row that matches is changed.
change_chosen_all :
    (p : String → Delivery → Bool) (f : Delivery → Delivery) (s : TenantData) (j : String)
    (d : Delivery)
    → IsMap s.deliveries
    → lookup j s.deliveries ≡ some d
    → lookup j (change_chosen p 0 f s).0.deliveries ≡ some (if p j d then f d else d)
change_chosen_all p f s j d m h = ground (
  arith,
  lookup-change_chosen p 0 f s m j,
  passes_of_chosen p 0 s.deliveries m j,
  chosen_of_passes p 0 s.deliveries m j,
)

pub change_chosen-IsValid :
    (p : String → Delivery → Bool) (limit : ℕ) (f : Delivery → Delivery) (s : TenantData)
    → KeepsIdentity f
    → IsValid s
    → IsValid (change_chosen p limit f s).0
unfolding change_chosen
change_chosen-IsValid p limit f s keep v =
    adjust_all-IsValid f keep (chosen p limit s.deliveries) s v

pub released-KeepsIdentity : (now : Time) → KeepsIdentity (released now)
unfolding released truncate_delivery
released-KeepsIdentity now = record {
  same_id = λ d. refl;
  same_campaign = λ d. refl;
  same_email = λ d. refl;
}

pub transitioned-KeepsIdentity :
    (to : DeliveryStatus) (now : Time) → KeepsIdentity (transitioned to now)
unfolding transitioned truncate_delivery
transitioned-KeepsIdentity to now = record {
  same_id = λ d. refl;
  same_campaign = λ d. refl;
  same_email = λ d. refl;
}

pub requeued-KeepsIdentity : (at : Time) → KeepsIdentity (requeued at)
unfolding requeued truncate_delivery
requeued-KeepsIdentity at = record {
  same_id = λ d. refl;
  same_campaign = λ d. refl;
  same_email = λ d. refl;
}

-- The lease of a row runs out strictly before `now`.
pub record HasExpired (now : Time) (d : Delivery) : Type 0 where
  pub is_leased : d.status ≡ DeliveryStatus.leased
  pub has_term : d.lease_until ≢ zero_time
  pub over : d.lease_until < truncate_time now

lease_expired_of_HasExpired :
    (now : Time) (j : String) (d : Delivery)
    → HasExpired now d
    → lease_expired (truncate_time now) j d ≡ true
unfolding lease_expired
lease_expired_of_HasExpired now j d h = ground (arith, status_eq_iff d.status DeliveryStatus.leased)

released_lem :
    (now : Time) (d : Delivery)
    → ((released now d).lane ≡ d.lane)
      × ((released now d).campaign_id ≡ d.campaign_id)
      × ((released now d).next_attempt_at ≡ truncate_time now)
      × ((released now d).attempt_count ≡ d.attempt_count)
      × ((released now d).lease_owner ≡ "")
      × (((released now d).status ≡ DeliveryStatus.queued)
          ⊎ ((released now d).status ≡ DeliveryStatus.deferred))
unfolding released truncate_delivery
released_lem now d = (refl, refl, refl, refl, refl, ground arith)

HasExpired-of_lease_expired :
    (now : Time) (j : String) (d : Delivery)
    → lease_expired (truncate_time now) j d ≡ true
    → HasExpired now d
unfolding lease_expired
HasExpired-of_lease_expired now j d h = ground (arith, status_eq_iff d.status DeliveryStatus.leased)

matches_of_transition :
    (campaign_id : String) (from : List DeliveryStatus) (to : DeliveryStatus) (j : String)
    (d : Delivery)
    → transition_matches campaign_id from to j d ≡ true
    → (d.campaign_id ≡ campaign_id) × (match_status from d.status ≡ true) × (d.status ≢ to)
unfolding transition_matches
matches_of_transition campaign_id from to j d h =
    ground (arith, eq_iff d.campaign_id campaign_id, status_eq_iff d.status to)

matches_of_requeue :
    (f : RetryFilter) (j : String) (d : Delivery)
    → requeue_matches f j d ≡ true
    → (d.campaign_id ≡ f.campaign_id)
      × (match_status f.statuses d.status ≡ true)
      × (match_class f.error_classes d.last_error_class ≡ true)
unfolding requeue_matches
matches_of_requeue f j d h = ground (arith, eq_iff d.campaign_id f.campaign_id)

requeued_lem :
    (at : Time) (d : Delivery)
    → ((requeued at d).status ≡ DeliveryStatus.queued)
      × ((requeued at d).retry_gen ≡ suc d.retry_gen)
      × ((requeued at d).attempt_count ≡ d.attempt_count)
      × ((requeued at d).lease_owner ≡ "")
      × ((requeued at d).next_attempt_at ≡ truncate_time at)
unfolding requeued truncate_delivery
requeued_lem at d = (refl, refl, refl, refl, refl)

-- The delivery of a worker that died can be claimed again: once its lease has run out, a release
-- without a limit makes it due for every later claim of its lane that admits its campaign, with no
-- attempt consumed.
pub expired_lease_recovers :
    (now : Time) (s s' : TenantData) (n : ℕ) (j : String) (d : Delivery) (req : ClaimRequest)
    → IsValid s
    → lookup j s.deliveries ≡ some d
    → HasExpired now d
    → release_expired_leases now 0 s ≡ ok (s', n)
    → req.lane ≡ d.lane
    → now ≤ req.now
    → Admits req.campaign_ids d.campaign_id
    → (e : Delivery) × (lookup j s'.deliveries ≡ some e)
      × IsDue req e
      × (e.attempt_count ≡ d.attempt_count)
unfolding release_expired_leases
expired_lease_recovers now s s' n j d req v at gone h lane later admitted =
    let t = truncate_time now in
    let e = released t d in
    let facts = released_lem t d in
    (
      e,
      ground (
        arith,
        change_chosen_all (lease_expired t) (released t) s j d v.rows at,
        lease_expired_of_HasExpired now j d gone,
      ),
      record {
        same_lane = facts.0 ∙ sym lane;
        due = omega (arith, facts.2, truncate_time_idem now, truncate_time_mono now req.now later);
        admitted = subst (Admits req.campaign_ids) (sym facts.1) admitted;
        waiting = ground arith;
      },
      facts.3,
    )

-- A lease that has not run out, and any row that is not leased, is left alone by a release.
release_keeps :
    (now : Time) (limit : ℕ) (s s' : TenantData) (n : ℕ) (j : String) (d : Delivery)
    → IsValid s
    → lookup j s.deliveries ≡ some d
    → ¬ HasExpired now d
    → release_expired_leases now limit s ≡ ok (s', n)
    → lookup j s'.deliveries ≡ some d
unfolding release_expired_leases
release_keeps now limit s s' n j d v at live h =
    elim (change_chosen_cases (lease_expired (truncate_time now)) limit
      (released (truncate_time now)) s j d v.rows at) [
        | inl e ↦ ground arith
        | inr (p, e) ↦ absurd (live (HasExpired-of_lease_expired now j d p))
      ]

-- What `BulkTransition` does to a row: it changes only rows of the campaign in one of the given
-- statuses (any status if none is given) that do not have the new status yet, and of those it
-- changes the status and the times, nothing else; all other rows stay.
bulk_transition_cases :
    (campaign_id : String) (from : List DeliveryStatus) (to : DeliveryStatus) (limit : ℕ)
    (clock : Time) (s s' : TenantData) (n : ℕ) (j : String) (d : Delivery)
    → IsValid s
    → lookup j s.deliveries ≡ some d
    → bulk_transition campaign_id from to limit clock s ≡ ok (s', n)
    → (lookup j s'.deliveries ≡ some d)
      ⊎ ((d.campaign_id ≡ campaign_id)
          × (match_status from d.status ≡ true)
          × (d.status ≢ to)
          × (lookup j s'.deliveries ≡ some (transitioned to (truncate_time clock) d)))
unfolding bulk_transition
bulk_transition_cases campaign_id from to limit clock s s' n j d v at h =
    elim (change_chosen_cases (transition_matches campaign_id from to) limit
      (transitioned to (truncate_time clock)) s j d v.rows at) [
        | inl e ↦ inl (ground arith)
        | inr (p, e) ↦
            let (c, m, t) = matches_of_transition campaign_id from to j d p in
            inr (c, m, t, ground arith)
      ]

-- `Requeue` leaves a row as it is, or the row is of the filter's campaign, statuses and error
-- classes, and is then queued again, due at once and owned by nobody, in a new retry generation,
-- with the attempts already made still counted.
requeue_cases :
    (f : RetryFilter) (limit : ℕ) (s s' : TenantData) (n : ℕ) (j : String) (d : Delivery)
    → IsValid s
    → lookup j s.deliveries ≡ some d
    → requeue f limit s ≡ ok (s', n)
    → (lookup j s'.deliveries ≡ some d)
      ⊎ ((d.campaign_id ≡ f.campaign_id)
          × (match_status f.statuses d.status ≡ true)
          × (match_class f.error_classes d.last_error_class ≡ true)
          × ((e : Delivery) × (lookup j s'.deliveries ≡ some e)
              × (e.status ≡ DeliveryStatus.queued)
              × (e.retry_gen ≡ suc d.retry_gen)
              × (e.attempt_count ≡ d.attempt_count)
              × (e.lease_owner ≡ "")
              × (e.next_attempt_at ≡ truncate_time f.now)))
unfolding requeue
requeue_cases f limit s s' n j d v at h =
    elim (change_chosen_cases (requeue_matches f) limit (requeued (truncate_time f.now)) s j d
      v.rows at) [
        | inl e ↦ inl (ground arith)
        | inr (p, e) ↦
            let (c, m, k) = matches_of_requeue f j d p in
            let (st, g, a, o, t) = requeued_lem (truncate_time f.now) d in
            inr (
              c,
              m,
              k,
              (
                requeued (truncate_time f.now) d,
                ground arith,
                st,
                g,
                a,
                o,
                t ∙ truncate_time_idem f.now,
              ),
            )
      ]
