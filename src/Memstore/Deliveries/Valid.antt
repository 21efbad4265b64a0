-- ===== src/Memstore/Deliveries/Valid.antt =====
-- What holds of a tenant's delivery rows between two operations: the rows are a map keyed by their
-- own identifiers, and a campaign has an address once.
use sendplane.Common.{
  String, ◌≡◌, ◌∙◌, ◌≢◌, List, [], ◌∷◌, some, arith, IsMap, lookup, adjust, adjust_all,
  lookup-adjust_inv, keys-adjust,
}
use sendplane.Store.Delivery.{Delivery}
use sendplane.Memstore.{TenantData}
use sendplane.Memstore.Deliveries.Rows.{email_key}

pub record IsValid (s : TenantData) : Type 0 where
  pub rows : IsMap s.deliveries
  pub ids : (j : String) (d : Delivery) → lookup j s.deliveries ≡ some d → d.id ≡ j
  pub indexed :
      (j : String) (d : Delivery)
      → lookup j s.deliveries ≡ some d
      → d.campaign_id ≢ ""
      → lookup (email_key d.campaign_id d.email_norm) s.campaign_emails ≡ some j

-- A change of a row that leaves what identifies it.
pub record KeepsIdentity (f : Delivery → Delivery) : Type 0 where
  pub same_id : (d : Delivery) → (f d).id ≡ d.id
  pub same_campaign : (d : Delivery) → (f d).campaign_id ≡ d.campaign_id
  pub same_email : (d : Delivery) → (f d).email_norm ≡ d.email_norm

module _ (f : Delivery → Delivery) (keep : KeepsIdentity f) where
  pub adjust-IsValid :
      (s : TenantData) (k : String)
      → IsValid s
      → IsValid (record s { deliveries = adjust k f s.deliveries })
  adjust-IsValid s k v = record {
    rows = λ j. ground (arith, v.rows j, keys-adjust k f s.deliveries);
    ids = λ j e h.
        let (d, at, c) = lookup-adjust_inv k j f s.deliveries h in
        ground (arith, v.ids j d, keep.same_id d);
    indexed = λ j e h n.
        let (d, at, c) = lookup-adjust_inv k j f s.deliveries h in
        ground (arith, v.indexed j d, keep.same_campaign d, keep.same_email d);
  }

  pub adjust_all-IsValid :
      (ks : List String) (s : TenantData)
      → IsValid s
      → IsValid (record s { deliveries = adjust_all ks f s.deliveries })
  unfolding adjust_all
  adjust_all-IsValid [] s v = v
  adjust_all-IsValid (k ∷ ks) s v =
      adjust_all-IsValid ks (record s { deliveries = adjust k f s.deliveries })
        (adjust-IsValid s k v)

-- A campaign's address stands in one row.
campaign_email_unique :
    (s : TenantData) (i j : String) (d e : Delivery)
    → IsValid s
    → lookup i s.deliveries ≡ some d
    → lookup j s.deliveries ≡ some e
    → d.campaign_id ≢ ""
    → d.campaign_id ≡ e.campaign_id
    → d.email_norm ≡ e.email_norm
    → i ≡ j
campaign_email_unique s i j d e v hd he n c m =
    let at_d = v.indexed i d hd n in let at_e = v.indexed j e he (λ z. n (c ∙ z)) in cc
