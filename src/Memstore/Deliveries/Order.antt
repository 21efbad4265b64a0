-- ===== src/Memstore/Deliveries/Order.antt =====
-- The order in which a claim serves rows: priority, then due time, then identifier; and how many.
use sendplane.Common.{
  ◌+◌, ◌<◌, String, ◌≡◌, ◌⊎◌, inl, inr, some, true, false, arith, if◌then◌else◌, Map, keys,
  matching, All, length, limited, ltb, sort, IsSorted, sort-IsSorted, length-sort, str_lt,
  str_lt_asym, not_str_lt_trans, contains, subst, sym, IsMap, lookup, lookup-matching, All_at,
  All-append, All-weaken, All-swap, All-contains, All-sort_inv, IsSorted-prefix_limited,
  length-take, pos_part, neg_part,
}
use Prim.Native.Nat.{min}
use sendplane.Memstore.Deliveries.Leases.{IsDue, candidate_iff}
use sendplane.Store.Delivery.{Delivery, ClaimRequest}
use sendplane.Memstore.Deliveries.Claim.{claimed, candidate, claim_less}

claim_less_asym : (x y : String × Delivery) → claim_less x y ≡ true → claim_less y x ≡ false
unfolding claim_less
claim_less_asym (i, a) (j, b) h = ground (arith, str_lt_asym a.id b.id)

-- `a` may be served before `b`: it has the higher priority, or the same and falls due first, or
-- falls due together with it and has no later identifier.
abbrev pub Precedes : Delivery → Delivery → Type 0
Precedes a b =
    (pos_part b.priority + neg_part a.priority < pos_part a.priority + neg_part b.priority)
    ⊎ ((pos_part b.priority + neg_part a.priority ≡ pos_part a.priority + neg_part b.priority)
        × ((a.next_attempt_at < b.next_attempt_at)
            ⊎ ((a.next_attempt_at ≡ b.next_attempt_at) × (str_lt b.id a.id ≡ false))))

Precedes-of_not_less : (x y : String × Delivery) → claim_less y x ≡ false → Precedes x.1 y.1
unfolding claim_less
Precedes-of_not_less (i, a) (j, b) h = ground arith

not_less_of_Precedes : (x y : String × Delivery) → Precedes x.1 y.1 → claim_less y x ≡ false
unfolding claim_less
not_less_of_Precedes (i, a) (j, b) h = ground arith

Precedes-trans : (a b c : Delivery) → Precedes a b → Precedes b c → Precedes a c
Precedes-trans a b c (inl h) (inl k) = inl (omega arith)
Precedes-trans a b c (inl h) (inr k) = inl (omega arith)
Precedes-trans a b c (inr h) (inl k) = inl (omega arith)
Precedes-trans a b c (inr (p, inl h)) (inr (q, inl k)) = inr (omega arith, inl (omega arith))
Precedes-trans a b c (inr (p, inl h)) (inr (q, inr k)) = inr (omega arith, inl (omega arith))
Precedes-trans a b c (inr (p, inr h)) (inr (q, inl k)) = inr (omega arith, inl (omega arith))
Precedes-trans a b c (inr (p, inr h)) (inr (q, inr k)) =
    inr (omega arith, inr (omega arith, not_str_lt_trans a.id b.id c.id h.1 k.1))

not_claim_less_trans :
    (x y z : String × Delivery)
    → claim_less y x ≡ false
    → claim_less z y ≡ false
    → claim_less z x ≡ false
not_claim_less_trans x y z h g =
    not_less_of_Precedes x z
      (Precedes-trans x.1 y.1 z.1 (Precedes-of_not_less x y h) (Precedes-of_not_less y z g))

claimed-IsSorted :
    (req : ClaimRequest) (rows : Map Delivery)
    → IsSorted claim_less (sort claim_less (matching (candidate req) rows))
claimed-IsSorted req rows =
    sort-IsSorted claim_less claim_less_asym not_claim_less_trans (matching (candidate req) rows)

abbrev Served : ClaimRequest → Map Delivery → String × Delivery → Type 0
Served req rows y =
    (contains (keys (claimed req rows)) y.0 ≡ true)
    ⊎ All (λ x. claim_less y x ≡ false) (claimed req rows)

-- A candidate is taken, or comes before none that is.
All-Served :
    (req : ClaimRequest) (rows : Map Delivery)
    → All (Served req rows) (matching (candidate req) rows)
unfolding claimed
All-Served req rows =
    let sorted = sort claim_less (matching (candidate req) rows) in
    let (zs, e, h) =
      IsSorted-prefix_limited claim_less req.limit sorted (claimed-IsSorted req rows) in
    All-sort_inv claim_less (Served req rows) (matching (candidate req) rows) (
      subst (All (Served req rows)) (sym e) (
        All-append (Served req rows) (limited req.limit sorted) zs
          (All-weaken _ _ (limited req.limit sorted) (λ x t. inl t)
            (All-contains (limited req.limit sorted)))
          (All-weaken _ _ zs (λ x t. inr t)
            (All-swap (λ z x. claim_less z x ≡ false) (limited req.limit sorted) zs h))))

-- A due row that a claim leaves is one that every row it takes precedes: no worker gets a
-- delivery of lower priority, or a later one of the same priority, while a due one is left.
pub claim_serves_in_order :
    (req : ClaimRequest) (rows : Map Delivery) (j : String) (d : Delivery)
    → IsMap rows
    → lookup j rows ≡ some d
    → IsDue req d
    → contains (keys (claimed req rows)) j ≡ false
    → All (λ x. Precedes x.1 d) (claimed req rows)
claim_serves_in_order req rows j d m at due left =
    elim (All_at (Served req rows) j d (matching (candidate req) rows) (All-Served req rows) (
      ground
        (arith, lookup-matching (candidate req) j rows (m j), (candidate_iff req j d).1 due))) [
          | inl taken ↦ absurd (ground (arith, taken))
          | inr all ↦ All-weaken _ _ (claimed req rows) (λ x h. Precedes-of_not_less x (j, d) h) all
        ]

-- A claim takes as many candidates as there are, up to a positive limit.
length-claimed :
    (req : ClaimRequest) (rows : Map Delivery)
    → length (claimed req rows) ≡ (
        if ltb 0 req.limit
        then min req.limit (length (matching (candidate req) rows))
        else length (matching (candidate req) rows))
unfolding claimed limited
length-claimed req rows = ground (
  arith,
  length-sort claim_less (matching (candidate req) rows),
  length-take req.limit (sort claim_less (matching (candidate req) rows)),
)
