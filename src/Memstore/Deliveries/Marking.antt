-- ===== src/Memstore/Deliveries/Marking.antt =====
-- `MarkSent`: a worker records that a delivery was sent.
use sendplane.Common.{
  String, ◌≡◌, refl, ◌≢◌, ◌⊎◌, inl, inr, none, some, false, arith, str_eq, eq_iff, lookup,
  lookup-adjust, adjust, not, ◌||◌, ◌↔◌, Option-cases, Bool-cases,
}
use sendplane.Store.Enums.{DeliveryStatus, status_eq, status_eq_iff}
use sendplane.Store.Errors.{StoreError, ok, err}
use sendplane.Store.Time.{Time}
use sendplane.Store.Delivery.{Delivery}
use sendplane.Memstore.{TenantData}
use sendplane.Memstore.Deliveries.Rows.{truncate_delivery}
use sendplane.Memstore.Deliveries.Complete.{mark_sent, sent_row}

-- The row is leased to the owner, who has a name.
abbrev pub HoldsLease : String → Delivery → Type 0
HoldsLease owner d = (d.status ≡ DeliveryStatus.leased) × (d.lease_owner ≡ owner) × (owner ≢ "")

holds_iff :
    (owner : String) (d : Delivery)
    → (not (status_eq d.status DeliveryStatus.leased)
          || str_eq owner ""
          || not (str_eq d.lease_owner owner)
        ≡ false)
      ↔ HoldsLease owner d
holds_iff owner d = ground (
  arith,
  status_eq_iff d.status DeliveryStatus.leased,
  eq_iff d.lease_owner owner,
  eq_iff owner "",
)

-- On an open store a worker marks a delivery sent exactly if the row is leased to it: the row then is
-- sent, with its message id, and the lease is kept. A worker that lost its lease, or never had one,
-- gets ErrLeaseLost, and a missing row is ErrNotFound.
pub mark_sent_owner :
    (id owner message_id : String) (at : Time) (s : TenantData)
    → s.closed ≡ false
    → let r = mark_sent id owner message_id at s in
      ((lookup id s.deliveries ≡ none) × (r ≡ err StoreError.err_not_found))
      ⊎ ((d : Delivery) × (lookup id s.deliveries ≡ some d)
          × (HoldsLease owner d → ⊥)
          × (r ≡ err StoreError.err_lease_lost))
      ⊎ ((d : Delivery) × (lookup id s.deliveries ≡ some d)
          × HoldsLease owner d
          × ((s' : TenantData) × (r ≡ ok s')
              × ((e : Delivery) × (lookup id s'.deliveries ≡ some e)
                  × (e.status ≡ DeliveryStatus.sent)
                  × (e.message_id ≡ message_id)
                  × (e.lease_owner ≡ owner))))
unfolding mark_sent sent_row truncate_delivery
mark_sent_owner id owner message_id at s live = elim (Option-cases (lookup id s.deliveries)) [
  | inl e ↦ inl (e, ground arith)
  | inr (d, e) ↦
      elim (Bool-cases (
        not (status_eq d.status DeliveryStatus.leased)
        || str_eq owner ""
        || not (str_eq d.lease_owner owner))) [
          | inl lost ↦ inr (inl (d, e, (λ h. ground (arith, holds_iff owner d)), ground arith))
          | inr held ↦
              let holds = (holds_iff owner d).0 held in
              inr (
                inr (
                  d,
                  e,
                  holds,
                  (
                    record s { deliveries = adjust id (sent_row message_id at) s.deliveries },
                    ground arith,
                    (
                      sent_row message_id at d,
                      ground (
                        arith,
                        eq_iff id id,
                        lookup-adjust id id (sent_row message_id at) s.deliveries,
                      ),
                      refl,
                      refl,
                      holds.1,
                    ),
                  ),
                ))
        ]
]
