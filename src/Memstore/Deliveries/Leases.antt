-- ===== src/Memstore/Deliveries/Leases.antt =====
-- What a claim hands out: due rows only, each leased to the claimer, none of them twice.
use mathlib.Core.Option
use sendplane.Common.{
  ◌+◌, ◌≤◌, String, ◌≡◌, refl, ap, ◌∙◌, ◌≢◌, ◌⊎◌, inl, inr, ◌↔◌, List, Option, none, some, true,
  false, arith, eq_iff, if◌then◌else◌, Map, IsMap, found, All-imp, All-both, All-values,
  All-contains, keys, values, lookup, map, matching, adjust_all, contains, contains-count, count,
  All, All-lookup, All-matching, All-sort, All-limited, count-keys-limited-le, count-keys-sort,
  count-keys-matching-le, lookup-adjust_all, contains-matching, Bool-cases, sort,
}
use sendplane.Store.Enums.{DeliveryStatus}
use sendplane.Store.Errors.{ok}
use sendplane.Store.Time.{truncate_time}
use sendplane.Store.Delivery.{Delivery, ClaimRequest}
use sendplane.Memstore.{TenantData}
use sendplane.Memstore.Deliveries.Rows.{truncate_delivery}
use sendplane.Memstore.Deliveries.Claim.{
  claim, claimed, candidate, claimable_status, claim_less, lease, outside,
}
use sendplane.Memstore.Deliveries.Valid.{IsValid, KeepsIdentity, adjust_all-IsValid}

-- The request names the row's campaign.
abbrev pub Names : Option (List String) → String → Type 0
Names none id = ⊥
Names (some ids) id = contains ids id ≡ true

-- The campaign filter lets the row through.
abbrev pub Admits : Option (List String) → String → Type 0
Admits none id = Unit {0}
Admits (some ids) id = (id ≡ "") ⊎ (contains ids id ≡ true)

-- The contract of `Claim`: what a row must be to be handed out.
pub record IsDue (req : ClaimRequest) (d : Delivery) : Type 0 where
  pub same_lane : d.lane ≡ req.lane
  pub due : d.next_attempt_at ≤ truncate_time req.now
  pub admitted : Admits req.campaign_ids d.campaign_id
  pub waiting :
      (d.status ≡ DeliveryStatus.queued)
      ⊎ (d.status ≡ DeliveryStatus.deferred)
      ⊎ ((d.status ≡ DeliveryStatus.pending)
          × (d.campaign_id ≢ "")
          × Names req.campaign_ids d.campaign_id)

candidate-lane :
    (req : ClaimRequest) (k : String) (d : Delivery) → candidate req k d ≡ true → d.lane ≡ req.lane
unfolding candidate
candidate-lane req k d h = ground arith

candidate-due :
    (req : ClaimRequest) (k : String) (d : Delivery)
    → candidate req k d ≡ true
    → d.next_attempt_at ≤ truncate_time req.now
unfolding candidate
candidate-due req k d h = ground arith

candidate-status :
    (req : ClaimRequest) (k : String) (d : Delivery)
    → candidate req k d ≡ true
    → claimable_status req.campaign_ids d ≡ true
unfolding candidate
candidate-status req k d h = ground arith

candidate-outside :
    (req : ClaimRequest) (k : String) (d : Delivery)
    → candidate req k d ≡ true
    → outside req.campaign_ids d ≡ false
unfolding candidate
candidate-outside req k d h = ground arith

Admits-of_outside :
    (ids : Option (List String)) (d : Delivery) → outside ids d ≡ false → Admits ids d.campaign_id
Admits-of_outside none d h = tt
Admits-of_outside (some ids) d h = ground (arith, eq_iff d.campaign_id "")

waiting_of_status :
    (ids : Option (List String)) (d : Delivery)
    → claimable_status ids d ≡ true
    → (d.status ≡ DeliveryStatus.queued)
      ⊎ (d.status ≡ DeliveryStatus.deferred)
      ⊎ ((d.status ≡ DeliveryStatus.pending) × (d.campaign_id ≢ "") × Names ids d.campaign_id)
unfolding claimable_status
waiting_of_status none d h = ground (arith, eq_iff d.campaign_id "")
waiting_of_status (some ids) d h = ground (arith, eq_iff d.campaign_id "")

outside_of_Admits :
    (ids : Option (List String)) (d : Delivery) → Admits ids d.campaign_id → outside ids d ≡ false
outside_of_Admits none d h = refl
outside_of_Admits (some ids) d h = ground (arith, eq_iff d.campaign_id "")

status_of_waiting :
    (ids : Option (List String)) (d : Delivery)
    → (d.status ≡ DeliveryStatus.queued)
      ⊎ (d.status ≡ DeliveryStatus.deferred)
      ⊎ ((d.status ≡ DeliveryStatus.pending) × (d.campaign_id ≢ "") × Names ids d.campaign_id)
    → claimable_status ids d ≡ true
unfolding claimable_status
status_of_waiting none d h = ground (arith, eq_iff d.campaign_id "")
status_of_waiting (some ids) d h = ground (arith, eq_iff d.campaign_id "")

candidate_of_IsDue :
    (req : ClaimRequest) (k : String) (d : Delivery) → IsDue req d → candidate req k d ≡ true
unfolding candidate
candidate_of_IsDue req k d h = ground (
  arith,
  outside_of_Admits req.campaign_ids d h.admitted,
  status_of_waiting req.campaign_ids d h.waiting,
)

-- The condition of the claim loop, with its early exits, selects exactly the rows that the claim's
-- contract describes: due, of the lane, of an admitted campaign (or of none), and queued, deferred,
-- or pending in a campaign that the request names.
pub candidate_iff :
    (req : ClaimRequest) (k : String) (d : Delivery) → (candidate req k d ≡ true) ↔ IsDue req d
candidate_iff req k d = (
  (λ h. record {
    same_lane = candidate-lane req k d h;
    due = candidate-due req k d h;
    admitted = Admits-of_outside req.campaign_ids d (candidate-outside req k d h);
    waiting = waiting_of_status req.campaign_ids d (candidate-status req k d h);
  }),
  candidate_of_IsDue req k d,
)

lease-KeepsIdentity : (req : ClaimRequest) → KeepsIdentity (lease req)
unfolding lease truncate_delivery
lease-KeepsIdentity req = record {
  same_id = λ d. refl;
  same_campaign = λ d. refl;
  same_email = λ d. refl;
}

-- The data after a claim.
abbrev pub after_claim : ClaimRequest → TenantData → TenantData
after_claim req s = record s {
  deliveries = adjust_all (keys (claimed req s.deliveries)) (lease req) s.deliveries;
}

claim-eq-ok :
    (req : ClaimRequest) (s s' : TenantData) (out : List Delivery)
    → claim req s ≡ ok (s', out)
    → (s' ≡ after_claim req s) × (out ≡ map (lease req) (values (claimed req s.deliveries)))
unfolding claim
claim-eq-ok req s s' out h = ground arith

pub claim-IsValid :
    (req : ClaimRequest) (s s' : TenantData) (out : List Delivery)
    → IsValid s
    → claim req s ≡ ok (s', out)
    → IsValid s'
claim-IsValid req s s' out v h =
    let (e, _) = claim-eq-ok req s s' out h in
    rw e (
      adjust_all-IsValid (lease req) (lease-KeepsIdentity req) (keys (claimed req s.deliveries)) s
        v)

module _ (req : ClaimRequest) (rows : Map Delivery) (m : IsMap rows) where
  count-claimed-le :
      (j : String)
      → count j (keys (claimed req rows)) ≤ count j (keys (matching (candidate req) rows))
  unfolding claimed
  count-claimed-le j = omega (
    arith,
    count-keys-limited-le j req.limit (sort claim_less (matching (candidate req) rows)),
    count-keys-sort claim_less j (matching (candidate req) rows),
  )

  lookup-claimed :
      (j : String)
      → lookup j (adjust_all (keys (claimed req rows)) (lease req) rows) ≡ (
          if contains (keys (claimed req rows)) j
          then Option.map (lease req) (lookup j rows)
          else lookup j rows)
  lookup-claimed j =
      lookup-adjust_all (keys (claimed req rows)) (lease req) rows j
        (omega (arith, count-claimed-le j, count-keys-matching-le (candidate req) j rows, m j))

  -- A claimed key has a row, and the row was a candidate.
  pub candidate_of_claimed :
      (j : String)
      → contains (keys (claimed req rows)) j ≡ true
      → (d : Delivery) × (lookup j rows ≡ some d) × (candidate req j d ≡ true)
  candidate_of_claimed j h = found (lookup j rows) (candidate req j) (
      ground (
        arith,
        contains-count (keys (claimed req rows)) j,
        contains-count (keys (matching (candidate req) rows)) j,
        count-claimed-le j,
        contains-matching (candidate req) j rows (m j),
      ))

  All-claimed :
      All (λ e. (lookup e.0 rows ≡ some e.1) × (candidate req e.0 e.1 ≡ true)) (claimed req rows)
  unfolding claimed
  All-claimed = All-limited _ req.limit (sort claim_less (matching (candidate req) rows)) (
      All-sort claim_less _ (matching (candidate req) rows)
        (All-matching (λ e. lookup e.0 rows ≡ some e.1) (candidate req) rows (All-lookup rows m)))

-- A leased row is no candidate of any claim.
not_candidate_of_leased :
    (req : ClaimRequest) (k : String) (d : Delivery)
    → d.status ≡ DeliveryStatus.leased
    → candidate req k d ≡ false
unfolding candidate claimable_status
not_candidate_of_leased req k d h = ground arith

status-lease : (req : ClaimRequest) (d : Delivery) → (lease req d).status ≡ DeliveryStatus.leased
unfolding lease truncate_delivery
status-lease req d = refl

-- No delivery is handed out twice: of two claims in a row, whoever makes them and whenever, the
-- second takes no row that the first took.
pub claim_exclusive :
    (req req' : ClaimRequest) (s s' : TenantData) (out : List Delivery) (j : String)
    → IsValid s
    → claim req s ≡ ok (s', out)
    → contains (keys (claimed req s.deliveries)) j ≡ true
    → contains (keys (claimed req' s'.deliveries)) j ≡ false
claim_exclusive req req' s s' out j v h taken =
    elim (Bool-cases (contains (keys (claimed req' s'.deliveries)) j)) [
      | inr e ↦ e
      | inl e ↦
          let v' = claim-IsValid req s s' out v h in
          let (d, at, _) = candidate_of_claimed req s.deliveries v.rows j taken in
          let (d', at', c) = candidate_of_claimed req' s'.deliveries v'.rows j e in
          ground (
            arith,
            (claim-eq-ok req s s' out h).0,
            lookup-claimed req s.deliveries v.rows j,
            status-lease req d,
            not_candidate_of_leased req' j d',
          )
    ]

-- A delivery that a claim returns.
pub record IsLeasedFrom (req : ClaimRequest) (s s' : TenantData) (e : Delivery) : Type 0 where
  pub was : Delivery
  pub stood : lookup e.id s.deliveries ≡ some was
  was_due : IsDue req was
  -- Leased to the worker, from now for the time that it asked for.
  is_leased : e.status ≡ DeliveryStatus.leased
  by_worker : e.lease_owner ≡ req.worker_id
  runs_out : e.lease_until ≡ truncate_time (truncate_time req.now + req.lease_for)
  -- What the worker sends, and its attempts so far, are the row's.
  same_campaign : e.campaign_id ≡ was.campaign_id
  same_email : e.email ≡ was.email
  same_attempts : e.attempt_count ≡ was.attempt_count
  pub stands : lookup e.id s'.deliveries ≡ some e

claimed-IsLeasedFrom :
    (req : ClaimRequest) (s : TenantData) (k : String) (d : Delivery)
    → IsValid s
    → lookup k s.deliveries ≡ some d
    → candidate req k d ≡ true
    → contains (keys (claimed req s.deliveries)) k ≡ true
    → IsLeasedFrom req s (after_claim req s) (lease req d)
unfolding lease truncate_delivery
claimed-IsLeasedFrom req s k d v at c taken =
    let same : (lease req d).id ≡ k = (lease-KeepsIdentity req).same_id d ∙ v.ids k d at in
    record {
      was = d;
      stood = ap (λ x. lookup x s.deliveries) same ∙ at;
      was_due = (candidate_iff req k d).0 c;
      is_leased = refl;
      by_worker = refl;
      runs_out = refl;
      same_campaign = refl;
      same_email = refl;
      same_attempts = refl;
      stands =
          ap (λ x. lookup x (after_claim req s).deliveries) same
          ∙ ground (arith, lookup-claimed req s.deliveries v.rows k);
    }

-- Every delivery that a claim returns stood in the store as a due row of the contract, and stands
-- there now as returned: leased to the worker of the request until its lease time after now has
-- passed, with the campaign, the address and the attempt count that the row had.
pub claim_returns_leases :
    (req : ClaimRequest) (s s' : TenantData) (out : List Delivery)
    → IsValid s
    → claim req s ≡ ok (s', out)
    → All (IsLeasedFrom req s s') out
claim_returns_leases req s s' out v h =
    let (e, o) = claim-eq-ok req s s' out h in
    rw (e, o)
      (All-values (IsLeasedFrom req s (after_claim req s)) (lease req) (claimed req s.deliveries) (
        All-imp _ _ (claimed req s.deliveries)
          (λ e a. claimed-IsLeasedFrom req s e.0 e.1 v a.0.0 a.0.1 a.1)
          (All-both _ _ (claimed req s.deliveries) (All-claimed req s.deliveries v.rows)
            (All-contains (claimed req s.deliveries)))))

-- A claim leaves every row that it does not take as it was.
pub claim_keeps_others :
    (req : ClaimRequest) (s s' : TenantData) (out : List Delivery) (j : String)
    → IsValid s
    → claim req s ≡ ok (s', out)
    → contains (keys (claimed req s.deliveries)) j ≡ false
    → lookup j s'.deliveries ≡ lookup j s.deliveries
claim_keeps_others req s s' out j v h free =
    ground (arith, (claim-eq-ok req s s' out h).0, lookup-claimed req s.deliveries v.rows j)
