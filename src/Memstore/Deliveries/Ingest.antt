-- ===== src/Memstore/Deliveries/Ingest.antt =====
-- Insertion keeps the rows well formed, and a chunk that is sent again inserts nothing.
use sendplane.Common.{
  ℕ, suc, String, ◌≡◌, refl, sym, subst, ◌∙◌, ◌≢◌, inl, inr, List, [], ◌∷◌, none, some, true, false,
  arith, str_eq, eq_iff, Map, IsMap, keys, lookup, insert, count-keys-insert, contains-count,
  lookup-insert, All, Bool-cases,
}
use sendplane.Store.Errors.{StoreError, ok, err}
use sendplane.Store.Time.{Time, truncate_time}
use sendplane.Store.Delivery.{Delivery}
use sendplane.Memstore.{TenantData, id_or_new}
use sendplane.Memstore.Deliveries.Rows.{email_key, truncate_delivery}
use sendplane.Memstore.Deliveries.Insert.{
  stored, duplicate, insert_row, insert_rows, insert_batch, lacks_email,
}
use sendplane.Memstore.Deliveries.Valid.{IsValid}

insert-IsMap : (k : String) (d : Delivery) (m : Map Delivery) → IsMap m → IsMap (insert k d m)
insert-IsMap k d m h j =
    ground (arith, h j, eq_iff k j, count-keys-insert k j d m, contains-count (keys m) k)

stored_lem :
    (s : TenantData) (now : Time) (d : Delivery)
    → ((stored s now d).id ≡ id_or_new s d.id)
      × ((stored s now d).campaign_id ≡ d.campaign_id)
      × ((stored s now d).email_norm ≡ d.email_norm)
unfolding stored truncate_delivery
stored_lem s now d = (refl, refl, refl)

-- The index entry of a row that is no duplicate is free.
free_of_not_duplicate :
    (s : TenantData) (d : Delivery)
    → duplicate s d ≡ false
    → d.campaign_id ≢ ""
    → lookup (email_key d.campaign_id d.email_norm) s.campaign_emails ≡ none
unfolding duplicate
free_of_not_duplicate s d h n = ground (arith, eq_iff d.campaign_id "")

insert_row-indexed :
    (s : TenantData) (now : Time) (d : Delivery)
    → IsValid s
    → duplicate s d ≡ false
    → (j : String) (e : Delivery) → lookup j (insert_row s now d).deliveries ≡ some e
    → e.campaign_id ≢ ""
    → lookup (email_key e.campaign_id e.email_norm) (insert_row s now d).campaign_emails ≡ some j
unfolding insert_row
insert_row-indexed s now d v free j e h n =
    let new_id = id_or_new s d.id in
    let key_d = email_key d.campaign_id d.email_norm in
    let key_e = email_key e.campaign_id e.email_norm in
    elim (Bool-cases (str_eq new_id j)) [
      | inl new ↦
          let same : some (stored s now d) ≡ some e =
            ground (arith, lookup-insert new_id j (stored s now d) s.deliveries) in
          let keys_eq : key_d ≡ key_e = ground (arith, stored_lem s now d) in
          ground (
            arith,
            eq_iff new_id j,
            eq_iff d.campaign_id "",
            eq_iff key_d key_e,
            stored_lem s now d,
            lookup-insert key_d key_e new_id s.campaign_emails,
          )
      | inr old ↦
          let stood : lookup j s.deliveries ≡ some e =
            ground (arith, lookup-insert new_id j (stored s now d) s.deliveries) in
          ground (
            arith,
            eq_iff d.campaign_id "",
            eq_iff key_d key_e,
            v.indexed j e stood n,
            free_of_not_duplicate s d free,
            lookup-insert key_d key_e new_id s.campaign_emails,
          )
    ]

insert_row-IsValid :
    (s : TenantData) (now : Time) (d : Delivery)
    → IsValid s
    → duplicate s d ≡ false
    → IsValid (insert_row s now d)
unfolding insert_row
insert_row-IsValid s now d v free = record {
  rows = insert-IsMap (id_or_new s d.id) (stored s now d) s.deliveries v.rows;
  ids = λ j e h. ground (
    arith,
    eq_iff (id_or_new s d.id) j,
    lookup-insert (id_or_new s d.id) j (stored s now d) s.deliveries,
    stored_lem s now d,
    v.ids j e,
  );
  indexed = insert_row-indexed s now d v free;
}

insert_rows_skip :
    (s : TenantData) (now : Time) (d : Delivery) (ds : List Delivery) (n : ℕ)
    → duplicate s d ≡ true
    → insert_rows s now (d ∷ ds) n ≡ insert_rows s now ds n
unfolding insert_rows
insert_rows_skip s now d ds n h = rw (h, insert_rows)

insert_rows_take :
    (s : TenantData) (now : Time) (d : Delivery) (ds : List Delivery) (n : ℕ)
    → duplicate s d ≡ false
    → insert_rows s now (d ∷ ds) n ≡ insert_rows (insert_row s now d) now ds (suc n)
unfolding insert_rows
insert_rows_take s now d ds n h = rw (h, insert_rows)

insert_rows-IsValid :
    (s : TenantData) (now : Time) (ds : List Delivery) (n : ℕ)
    → IsValid s
    → IsValid (insert_rows s now ds n).0
unfolding insert_rows
insert_rows-IsValid s now [] n v = v
insert_rows-IsValid s now (d ∷ ds) n v = elim (Bool-cases (duplicate s d)) [
  | inl e ↦ rw (insert_rows_skip s now d ds n e) (insert_rows-IsValid s now ds n v)
  | inr e ↦
      rw (insert_rows_take s now d ds n e)
        (insert_rows-IsValid (insert_row s now d) now ds (suc n) (insert_row-IsValid s now d v e))
]

-- Inserting a batch keeps the rows well formed: in particular a campaign never gets an address
-- twice, whatever the batch holds.
pub insert_batch-IsValid :
    (ds : List Delivery) (clock : Time) (s s' : TenantData) (n : ℕ)
    → IsValid s
    → insert_batch ds clock s ≡ ok (s', n)
    → IsValid s'
unfolding insert_batch
insert_batch-IsValid ds clock s s' n v h =
    let e : s' ≡ (insert_rows s (truncate_time clock) ds 0).0 = ground arith in
    rw e (insert_rows-IsValid s (truncate_time clock) ds 0 v)

-- Once in the index, a row stays a duplicate.
insert_row-duplicate_kept :
    (s : TenantData) (now : Time) (d e : Delivery)
    → duplicate s e ≡ true
    → duplicate (insert_row s now d) e ≡ true
unfolding insert_row duplicate
insert_row-duplicate_kept s now d e h =
    let key_d = email_key d.campaign_id d.email_norm in
    let key_e = email_key e.campaign_id e.email_norm in
    ground (arith, lookup-insert key_d key_e (id_or_new s d.id) s.campaign_emails)

insert_row-duplicate :
    (s : TenantData) (now : Time) (d : Delivery)
    → d.campaign_id ≢ ""
    → duplicate (insert_row s now d) d ≡ true
unfolding insert_row duplicate
insert_row-duplicate s now d h =
    let key_d = email_key d.campaign_id d.email_norm in
    ground (
      arith,
      eq_iff d.campaign_id "",
      eq_iff key_d key_d,
      lookup-insert key_d key_d (id_or_new s d.id) s.campaign_emails,
    )

insert_rows-duplicate_kept :
    (s : TenantData) (now : Time) (ds : List Delivery) (n : ℕ) (e : Delivery)
    → duplicate s e ≡ true
    → duplicate (insert_rows s now ds n).0 e ≡ true
unfolding insert_rows
insert_rows-duplicate_kept s now [] n e h = h
insert_rows-duplicate_kept s now (d ∷ ds) n e h = elim (Bool-cases (duplicate s d)) [
  | inl f ↦ rw (insert_rows_skip s now d ds n f) (insert_rows-duplicate_kept s now ds n e h)
  | inr f ↦ rw (insert_rows_take s now d ds n f) (
      insert_rows-duplicate_kept (insert_row s now d) now ds (suc n) e
        (insert_row-duplicate_kept s now d e h))
]

abbrev pub InCampaign : Delivery → Type 0
InCampaign d = d.campaign_id ≢ ""

insert_rows-duplicates :
    (s : TenantData) (now : Time) (ds : List Delivery) (n : ℕ)
    → All InCampaign ds
    → All (λ d. duplicate (insert_rows s now ds n).0 d ≡ true) ds
unfolding insert_rows
insert_rows-duplicates s now [] n h = tt
insert_rows-duplicates s now (d ∷ ds) n h = elim (Bool-cases (duplicate s d)) [
  | inl f ↦
      subst (λ r. All (λ e. duplicate r.0 e ≡ true) (d ∷ ds))
        (sym (insert_rows_skip s now d ds n f))
        (insert_rows-duplicate_kept s now ds n d f, insert_rows-duplicates s now ds n h.1)
  | inr f ↦
      subst (λ r. All (λ e. duplicate r.0 e ≡ true) (d ∷ ds))
        (sym (insert_rows_take s now d ds n f))
        (
          insert_rows-duplicate_kept (insert_row s now d) now ds (suc n) d
              (insert_row-duplicate s now d h.0),
          insert_rows-duplicates (insert_row s now d) now ds (suc n) h.1,
        )
]

insert_rows_none :
    (s : TenantData) (now : Time) (ds : List Delivery) (n : ℕ)
    → All (λ d. duplicate s d ≡ true) ds
    → insert_rows s now ds n ≡ (s, n)
unfolding insert_rows
insert_rows_none s now [] n h = refl
insert_rows_none s now (d ∷ ds) n h =
    insert_rows_skip s now d ds n h.0 ∙ insert_rows_none s now ds n h.1

insert_rows-closed :
    (s : TenantData) (now : Time) (ds : List Delivery) (n : ℕ)
    → (insert_rows s now ds n).0.closed ≡ s.closed
unfolding insert_rows insert_row
insert_rows-closed s now [] n = refl
insert_rows-closed s now (d ∷ ds) n = elim (Bool-cases (duplicate s d)) [
  | inl f ↦ rw (insert_rows_skip s now d ds n f) (insert_rows-closed s now ds n)
  | inr f ↦
      rw (insert_rows_take s now d ds n f) (insert_rows-closed (insert_row s now d) now ds (suc n))
]

-- A chunk of campaign recipients may be sent again, at any later time: the second insertion
-- inserts nothing and leaves the data as it is.
pub insert_batch_idem :
    (ds : List Delivery) (clock clock' : Time) (s s' : TenantData) (n : ℕ)
    → All InCampaign ds
    → insert_batch ds clock s ≡ ok (s', n)
    → insert_batch ds clock' s' ≡ ok (s', 0)
unfolding insert_batch
insert_batch_idem ds clock clock' s s' n c h =
    let valid : lacks_email ds ≡ false = ground arith in
    let is_open : s.closed ≡ false = ground arith in
    let e : s' ≡ (insert_rows s (truncate_time clock) ds 0).0 = ground arith in
    rw e (
      ground (
        arith,
        insert_rows-closed s (truncate_time clock) ds 0,
        insert_rows_none (insert_rows s (truncate_time clock) ds 0).0 (truncate_time clock') ds 0
            (insert_rows-duplicates s (truncate_time clock) ds 0 c),
      ))

-- A batch with a row that has no address is refused whole, and inserts nothing.
insert_batch_invalid :
    (ds : List Delivery) (clock : Time) (s : TenantData)
    → lacks_email ds ≡ true
    → insert_batch ds clock s ≡ err StoreError.err_invalid
unfolding insert_batch
insert_batch_invalid ds clock s h = ground arith
