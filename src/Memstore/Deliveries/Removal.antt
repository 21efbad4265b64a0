-- ===== src/Memstore/Deliveries/Removal.antt =====
-- Retention removes old rows with their attempts, frees their addresses, and keeps the rest.
use sendplane.Common.{
  ℕ, ◌≤◌, ◌<◌, String, ◌≡◌, refl, sym, subst, ◌≢◌, ◌⊎◌, inl, inr, List, [], ◌∷◌, none, some, Bool,
  true, false, not, arith, str_eq, eq_iff, if◌then◌else◌, Map, lookup, delete, lookup-delete,
  count-keys-delete-le, matching, All, contains, Option-cases, Bool-cases,
}
use sendplane.Store.Errors.{ok}
use sendplane.Store.Time.{Time, truncate_time}
use sendplane.Store.Delivery.{Delivery, DeliveryAttempt}
use sendplane.Memstore.{TenantData}
use sendplane.Memstore.Deliveries.Rows.{email_key}
use sendplane.Memstore.Deliveries.Bulk.{
  chosen, created_before, drop_attempts, delete_row, delete_rows, delete_before,
}
use sendplane.Memstore.Deliveries.Valid.{IsValid}
use sendplane.Memstore.Deliveries.Chosen.{passes_of_chosen, chosen_of_passes}

-- The data with a row removed.
abbrev without : String → Delivery → TenantData → TenantData
without id d s = record s {
  campaign_emails =
      if not (str_eq d.campaign_id "")
      then delete (email_key d.campaign_id d.email_norm) s.campaign_emails
      else s.campaign_emails;
  deliveries = delete id s.deliveries;
  attempts = drop_attempts id s.attempts;
}

delete_row_present :
    (id : String) (d : Delivery) (s : TenantData)
    → lookup id s.deliveries ≡ some d
    → delete_row id s ≡ without id d s
unfolding delete_row
delete_row_present id d s h = rw (h, delete_row)

delete_row_absent :
    (id : String) (s : TenantData) → lookup id s.deliveries ≡ none → delete_row id s ≡ s
unfolding delete_row
delete_row_absent id s h = rw (h, delete_row)

without-indexed :
    (id : String) (d : Delivery) (s : TenantData)
    → IsValid s
    → lookup id s.deliveries ≡ some d
    → (j : String) (e : Delivery) → lookup j (delete id s.deliveries) ≡ some e
    → e.campaign_id ≢ ""
    → lookup (email_key e.campaign_id e.email_norm) (without id d s).campaign_emails ≡ some j
without-indexed id d s v at j e h n =
    let key_d = email_key d.campaign_id d.email_norm in
    let key_e = email_key e.campaign_id e.email_norm in
    let other : str_eq id j ≡ false = ground (arith, lookup-delete id j s.deliveries) in
    let stood : lookup j s.deliveries ≡ some e = ground (arith, lookup-delete id j s.deliveries) in
    elim (Bool-cases (str_eq d.campaign_id "")) [
      | inl free ↦ ground (arith, v.indexed j e stood n)
      | inr taken ↦ ground (
        arith,
        eq_iff id j,
        eq_iff key_d key_e,
        eq_iff d.campaign_id "",
        v.indexed j e stood n,
        v.indexed id d at (ground (arith, eq_iff d.campaign_id "")),
        lookup-delete key_d key_e s.campaign_emails,
      )
    ]

without-IsValid :
    (id : String) (d : Delivery) (s : TenantData)
    → IsValid s
    → lookup id s.deliveries ≡ some d
    → IsValid (without id d s)
without-IsValid id d s v at = record {
  rows = λ j. omega (arith, v.rows j, count-keys-delete-le id j s.deliveries);
  ids = λ j e h. ground (arith, v.ids j e, lookup-delete id j s.deliveries);
  indexed = without-indexed id d s v at;
}

delete_row-IsValid : (id : String) (s : TenantData) → IsValid s → IsValid (delete_row id s)
delete_row-IsValid id s v = elim (Option-cases (lookup id s.deliveries)) [
  | inl e ↦ rw (delete_row_absent id s e) v
  | inr (d, e) ↦ rw (delete_row_present id d s e) (without-IsValid id d s v e)
]

pub delete_rows-IsValid :
    (ids : List String) (s : TenantData) → IsValid s → IsValid (delete_rows ids s)
unfolding delete_rows
delete_rows-IsValid [] s v = v
delete_rows-IsValid (id ∷ ids) s v =
    delete_rows-IsValid ids (delete_row id s) (delete_row-IsValid id s v)

lookup-delete_row :
    (id j : String) (s : TenantData)
    → lookup j (delete_row id s).deliveries ≡ (if str_eq id j then none else lookup j s.deliveries)
lookup-delete_row id j s = elim (Option-cases (lookup id s.deliveries)) [
  | inl e ↦ ground (arith, eq_iff id j, delete_row_absent id s e)
  | inr (d, e) ↦ ground (arith, delete_row_present id d s e, lookup-delete id j s.deliveries)
]

pub lookup-delete_rows :
    (ids : List String) (j : String) (s : TenantData)
    → lookup j (delete_rows ids s).deliveries
      ≡ (if contains ids j then none else lookup j s.deliveries)
unfolding delete_rows
lookup-delete_rows [] j s = refl
lookup-delete_rows (id ∷ ids) j s =
    ground (arith, lookup-delete_row id j s, lookup-delete_rows ids j (delete_row id s))

-- An attempt of another delivery.
abbrev pub IsOfOther : String → String × DeliveryAttempt → Type 0
IsOfOther j a = str_eq a.1.delivery_id j ≡ false

matching-All :
    (j : String) (p : String → DeliveryAttempt → Bool) (m : Map DeliveryAttempt)
    → All (IsOfOther j) m
    → All (IsOfOther j) (matching p m)
unfolding matching
matching-All j p [] h = tt
matching-All j p ((k, a) ∷ m) h = elim (Bool-cases (p k a)) [
  | inl e ↦ rw e (h.0, matching-All j p m h.1)
  | inr e ↦ rw e (matching-All j p m h.1)
]

drop_attempts-All : (j : String) (m : Map DeliveryAttempt) → All (IsOfOther j) (drop_attempts j m)
unfolding drop_attempts matching
drop_attempts-All j [] = tt
drop_attempts-All j ((k, a) ∷ m) = elim (Bool-cases (str_eq a.delivery_id j)) [
  | inl e ↦ rw e (drop_attempts-All j m)
  | inr e ↦ rw e (e, drop_attempts-All j m)
]

delete_row-attempts :
    (id j : String) (s : TenantData)
    → All (IsOfOther j) s.attempts
    → All (IsOfOther j) (delete_row id s).attempts
unfolding drop_attempts
delete_row-attempts id j s h = elim (Option-cases (lookup id s.deliveries)) [
  | inl e ↦ rw (delete_row_absent id s e) h
  | inr (d, e) ↦ rw (delete_row_present id d s e) (matching-All j _ s.attempts h)
]

delete_rows-attempts_kept :
    (ids : List String) (j : String) (s : TenantData)
    → All (IsOfOther j) s.attempts
    → All (IsOfOther j) (delete_rows ids s).attempts
unfolding delete_rows
delete_rows-attempts_kept [] j s h = h
delete_rows-attempts_kept (id ∷ ids) j s h =
    delete_rows-attempts_kept ids j (delete_row id s) (delete_row-attempts id j s h)

delete_rows-attempts :
    (ids : List String) (j : String) (d : Delivery) (s : TenantData)
    → lookup j s.deliveries ≡ some d
    → contains ids j ≡ true
    → All (IsOfOther j) (delete_rows ids s).attempts
unfolding delete_rows
delete_rows-attempts [] j d s at c = absurd (ground arith)
delete_rows-attempts (id ∷ ids) j d s at c = elim (Bool-cases (str_eq id j)) [
  | inr other ↦
      delete_rows-attempts ids j d (delete_row id s) (ground (arith, lookup-delete_row id j s))
        (ground arith)
  | inl same ↦
      let e : id ≡ j = (eq_iff id j).0 same in
      delete_rows-attempts_kept ids j (delete_row id s) (
        subst (λ k. All (IsOfOther j) (delete_row k s).attempts) (sym e)
          (rw (delete_row_present j d s at) (drop_attempts-All j s.attempts)))
]

created_before_cases :
    (campaign_id : String) (cutoff : Time) (j : String) (d : Delivery)
    → ((created_before campaign_id cutoff j d ≡ true)
        × (d.campaign_id ≡ campaign_id)
        × (d.created_at < cutoff))
      ⊎ ((created_before campaign_id cutoff j d ≡ false)
          × ((d.campaign_id ≢ campaign_id) ⊎ (cutoff ≤ d.created_at)))
unfolding created_before
created_before_cases campaign_id cutoff j d = ground (arith, eq_iff d.campaign_id campaign_id)

-- Retention without a limit removes exactly the rows of the campaign that were created before the
-- cutoff, with every attempt of theirs, and leaves every other row as it is.
pub delete_before_removes :
    (campaign_id : String) (cutoff : Time) (s s' : TenantData) (n : ℕ) (j : String) (d : Delivery)
    → IsValid s
    → lookup j s.deliveries ≡ some d
    → delete_before campaign_id cutoff 0 s ≡ ok (s', n)
    → ((d.campaign_id ≡ campaign_id)
        × (d.created_at < truncate_time cutoff)
        × (lookup j s'.deliveries ≡ none)
        × All (IsOfOther j) s'.attempts)
      ⊎ (((d.campaign_id ≢ campaign_id) ⊎ (truncate_time cutoff ≤ d.created_at))
          × (lookup j s'.deliveries ≡ some d))
unfolding delete_before
delete_before_removes campaign_id cutoff s s' n j d v at h =
    let p = created_before campaign_id (truncate_time cutoff) in
    let ids = chosen p 0 s.deliveries in
    let done : s' ≡ delete_rows ids s = ground arith in
    elim (created_before_cases campaign_id (truncate_time cutoff) j d) [
      | inl (e, c, old) ↦
          let hit : contains ids j ≡ true =
            chosen_of_passes p 0 s.deliveries v.rows j refl (ground arith) in
          inl (
            c,
            old,
            ground (arith, lookup-delete_rows ids j s),
            subst (λ t. All (IsOfOther j) t.attempts) (sym done)
                (delete_rows-attempts ids j d s at hit),
          )
      | inr (e, kept) ↦ inr (
        kept,
        ground (arith, lookup-delete_rows ids j s, passes_of_chosen p 0 s.deliveries v.rows j),
      )
    ]
