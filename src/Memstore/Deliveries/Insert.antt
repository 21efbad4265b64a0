-- ===== src/Memstore/Deliveries/Insert.antt =====
-- store/memstore/delivery.go: `InsertBatch`, `Get`, and the attempt rows' `Insert`.
use sendplane.Common.{
  ℕ, suc, String, Bool, true, false, ◌||◌, List, [], ◌∷◌, none, some, str_eq, if◌then◌else◌, lookup,
  insert,
}
use sendplane.Store.Errors.{Result, StoreError, ok, err, ◌>>◌, refuse_if}
use sendplane.Store.Time.{Time, is_zero, truncate_time}
use sendplane.Store.Delivery.{Delivery, DeliveryAttempt}
use sendplane.Memstore.{TenantData, check, id_or_new, issued_for}
use sendplane.Memstore.Deliveries.Rows.{email_key, truncate_delivery, truncate_attempt}

-- The validation loop: a row has no normalized address.
unfoldable pub lacks_email : List Delivery → Bool
lacks_email [] = false
lacks_email (d ∷ ds) = str_eq d.email_norm "" || lacks_email ds

-- The row as stored: identifier, tenant and default times filled in.
unfoldable pub stored : TenantData → Time → Delivery → Delivery
stored s now d = truncate_delivery (record d {
  id = id_or_new s d.id;
  tenant_id = s.tenant;
  created_at = if is_zero d.created_at then now else d.created_at;
  updated_at = now;
  next_attempt_at = if is_zero d.next_attempt_at then now else d.next_attempt_at;
})

-- A row is a duplicate if its campaign has its address already.
unfoldable pub duplicate : TenantData → Delivery → Bool
duplicate s d =
    if str_eq d.campaign_id ""
    then false
    else elim (lookup (email_key d.campaign_id d.email_norm) s.campaign_emails) [
      | none ↦ false
      | some id ↦ true
    ]

unfoldable pub insert_row : TenantData → Time → Delivery → TenantData
unfolding stored
insert_row s now d = record s {
  issued = issued_for s d.id;
  deliveries = insert (id_or_new s d.id) (stored s now d) s.deliveries;
  campaign_emails =
      if str_eq d.campaign_id ""
      then s.campaign_emails
      else insert (email_key d.campaign_id d.email_norm) (id_or_new s d.id) s.campaign_emails;
}

-- The insertion loop, with the number of rows inserted so far.
unfoldable pub insert_rows : TenantData → Time → List Delivery → ℕ → TenantData × ℕ
insert_rows s now [] inserted = (s, inserted)
insert_rows s now (d ∷ ds) inserted =
    insert_rows (if duplicate s d then s else insert_row s now d) now ds
      (if duplicate s d then inserted else suc inserted)

unfoldable pub insert_batch : List Delivery → Time → TenantData → Result (TenantData × ℕ)
insert_batch ds clock s = do
  refuse_if (lacks_email ds) StoreError.err_invalid
  check s
  ok (insert_rows s (truncate_time clock) ds 0)

unfoldable pub get : String → TenantData → Result Delivery
get id s = do
  check s
  elim (lookup id s.deliveries) [ none ↦ err StoreError.err_not_found | some d ↦ ok d ]

-- An attempt row is stored under its own identifier.
unfoldable pub insert_attempt : TenantData → Time → DeliveryAttempt → TenantData
insert_attempt s now a = record s {
  issued = issued_for s a.id;
  attempts =
      insert (id_or_new s a.id)
        (truncate_attempt (record a {
          id = id_or_new s a.id;
          tenant_id = s.tenant;
          created_at = if is_zero a.created_at then now else a.created_at;
        }))
        s.attempts;
}

insert_attempts_from : TenantData → Time → List DeliveryAttempt → TenantData
insert_attempts_from s now [] = s
insert_attempts_from s now (a ∷ attempts) =
    insert_attempts_from (insert_attempt s now a) now attempts

unfoldable pub insert_attempts : List DeliveryAttempt → Time → TenantData → Result TenantData
unfolding insert_attempts_from insert_attempt
insert_attempts attempts clock s = do
  check s
  ok (insert_attempts_from s (truncate_time clock) attempts)
