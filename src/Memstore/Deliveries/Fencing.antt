-- ===== src/Memstore/Deliveries/Fencing.antt =====
-- The lease owner fences a worker: what comes from a worker that lost its lease changes nothing.
use sendplane.Common.{
  String, ◌≡◌, refl, ap, subst, ◌∙◌, ◌≢◌, ◌⊎◌, inl, inr, List, [], ◌∷◌, none, some, Bool, true,
  false, arith, str_eq, eq_iff, lookup, All, lookup-adjust, Option-cases, Bool-cases,
}
use sendplane.Store.Enums.{DeliveryStatus, status_eq, status_eq_iff}
use sendplane.Store.Errors.{ok}
use sendplane.Store.Time.{Time, truncate_time}
use sendplane.Store.Delivery.{Delivery, DeliveryResult}
use sendplane.Memstore.{TenantData}
use sendplane.Memstore.Deliveries.Rows.{truncate_delivery}
use sendplane.Memstore.Deliveries.Insert.{insert_attempt}
use sendplane.Memstore.Deliveries.Complete.{
  stale, apply_result, complete_one, complete_all, complete, mark_terminal, terminal_row,
}

-- A completion of one delivery leaves the others.
complete_one_other :
    (now : Time) (res : DeliveryResult) (s : TenantData) (j : String)
    → res.delivery_id ≢ j
    → lookup j (complete_one now res s).deliveries ≡ lookup j s.deliveries
unfolding complete_one insert_attempt
complete_one_other now res s j h = ground (
  arith,
  eq_iff res.delivery_id j,
  lookup-adjust res.delivery_id j (apply_result now res) s.deliveries,
)

complete_one-stale :
    (now : Time) (res : DeliveryResult) (s : TenantData) (d : Delivery)
    → lookup res.delivery_id s.deliveries ≡ some d
    → stale res d ≡ true
    → complete_one now res s ≡ s
unfolding complete_one
complete_one-stale now res s d h st = ground arith

complete_one_missing :
    (now : Time) (res : DeliveryResult) (s : TenantData)
    → lookup res.delivery_id s.deliveries ≡ none
    → complete_one now res s ≡ s
unfolding complete_one
complete_one_missing now res s h = ground arith

stale-apply_result :
    (now : Time) (res : DeliveryResult) (d : Delivery) → stale res (apply_result now res d) ≡ true
unfolding apply_result truncate_delivery
stale-apply_result now res d = ground (arith, eq_iff res.lease_owner "", eq_iff "" res.lease_owner)

-- The result that holds the lease replaces the row.
complete_one_fresh :
    (now : Time) (res : DeliveryResult) (s : TenantData) (d : Delivery)
    → lookup res.delivery_id s.deliveries ≡ some d
    → stale res d ≡ false
    → lookup res.delivery_id (complete_one now res s).deliveries ≡ some (apply_result now res d)
unfolding complete_one insert_attempt
complete_one_fresh now res s d h st = ground (
  arith,
  eq_iff res.delivery_id res.delivery_id,
  lookup-adjust res.delivery_id res.delivery_id (apply_result now res) s.deliveries,
)

-- Not a result for the row by the holder of its lease.
abbrev pub Foreign : String → String → DeliveryResult → Type 0
Foreign j owner res = (res.delivery_id ≢ j) ⊎ (res.lease_owner ≡ "") ⊎ (res.lease_owner ≢ owner)

complete_one-Foreign :
    (now : Time) (res : DeliveryResult) (s : TenantData) (j : String) (d : Delivery)
    → lookup j s.deliveries ≡ some d
    → Foreign j d.lease_owner res
    → lookup j (complete_one now res s).deliveries ≡ some d
complete_one-Foreign now res s j d h f = elim (Bool-cases (str_eq res.delivery_id j)) [
  | inr other ↦ complete_one_other now res s j (ground (arith, eq_iff res.delivery_id j)) ∙ h
  | inl same ↦
      let e : res.delivery_id ≡ j = (eq_iff res.delivery_id j).0 same in
      let at : lookup res.delivery_id s.deliveries ≡ some d =
        ap (λ x. lookup x s.deliveries) e ∙ h in
      ap (λ (t : TenantData). lookup j t.deliveries)
        (complete_one-stale now res s d at
          (ground (arith, eq_iff res.lease_owner "", eq_iff d.lease_owner res.lease_owner)))
      ∙ h
]

complete_all-Foreign :
    (now : Time) (rs : List DeliveryResult) (s : TenantData) (j : String) (d : Delivery)
    → lookup j s.deliveries ≡ some d
    → All (Foreign j d.lease_owner) rs
    → lookup j (complete_all now rs s).deliveries ≡ some d
unfolding complete_all
complete_all-Foreign now [] s j d h fs = h
complete_all-Foreign now (r ∷ rs) s j d h fs =
    complete_all-Foreign now rs (complete_one now r s) j d (complete_one-Foreign now r s j d h fs.0)
      fs.1

-- Results that do not come from the worker that holds a row's lease leave the row as it is, in
-- any number and any order.
pub complete-Foreign :
    (clock : Time) (results : List DeliveryResult) (s s' : TenantData) (j : String) (d : Delivery)
    → lookup j s.deliveries ≡ some d
    → All (Foreign j d.lease_owner) results
    → complete results clock s ≡ ok s'
    → lookup j s'.deliveries ≡ some d
unfolding complete
complete-Foreign clock results s s' j d h fs e =
    let done : s' ≡ complete_all (truncate_time clock) results s = ground arith in
    rw done (complete_all-Foreign (truncate_time clock) results s j d h fs)

-- Nobody holds the lease of a row without an owner.
pub All-Foreign_unowned :
    (j owner : String) (rs : List DeliveryResult) → owner ≡ "" → All (Foreign j owner) rs
All-Foreign_unowned j owner [] o = tt
All-Foreign_unowned j owner (r ∷ rs) o = (
  elim (Bool-cases (str_eq r.lease_owner "")) [
    | inl e ↦ inr (inl ((eq_iff r.lease_owner "").0 e))
    | inr e ↦ inr (inr (ground (arith, eq_iff r.lease_owner "")))
  ],
  All-Foreign_unowned j owner rs o,
)

-- `MarkBounced` and `MarkComplained` change a row exactly if it is sent, and then drop its lease;
-- any other row, and a missing one, stays as it is with no error.
mark_terminal_cases :
    (id : String) (to : DeliveryStatus) (at : Time) (s s' : TenantData) (changed : Bool)
    → mark_terminal id to at s ≡ ok (s', changed)
    → ((changed ≡ true)
        × ((d : Delivery) × (lookup id s.deliveries ≡ some d)
            × (d.status ≡ DeliveryStatus.sent)
            × (lookup id s'.deliveries ≡ some (terminal_row to at d))))
      ⊎ ((changed ≡ false)
          × (s' ≡ s)
          × ((d : Delivery) → lookup id s.deliveries ≡ some d → d.status ≢ DeliveryStatus.sent))
unfolding mark_terminal
mark_terminal_cases id to at s s' changed h = elim (Option-cases (lookup id s.deliveries)) [
  | inl e ↦ inr (ground arith, ground arith, λ d k. ground arith)
  | inr (d, e) ↦ elim (Bool-cases (status_eq d.status DeliveryStatus.sent)) [
    | inl st ↦ inl (
      ground arith,
      (
        d,
        e,
        (status_eq_iff d.status DeliveryStatus.sent).0 st,
        ground (arith, eq_iff id id, lookup-adjust id id (terminal_row to at) s.deliveries),
      ),
    )
    | inr st ↦ inr (
      ground arith,
      ground arith,
      λ d' k. ground (arith, status_eq_iff d.status DeliveryStatus.sent),
    )
  ]
]

terminal_row_lem :
    (to : DeliveryStatus) (at : Time) (d : Delivery)
    → ((terminal_row to at d).status ≡ to) × ((terminal_row to at d).lease_owner ≡ "")
unfolding terminal_row truncate_delivery
terminal_row_lem to at d = (refl, refl)

-- A bounce that arrives before the sender's batch of results is final: whatever results are
-- committed after it, the row keeps the bounced (or complained) status.
pub bounce_survives_completion :
    (id : String) (to : DeliveryStatus) (at clock : Time) (results : List DeliveryResult)
    (s s' s'' : TenantData)
    → mark_terminal id to at s ≡ ok (s', true)
    → complete results clock s' ≡ ok s''
    → (d : Delivery) × (lookup id s''.deliveries ≡ some d) × (d.status ≡ to)
bounce_survives_completion id to at clock results s s' s'' h k =
    elim (mark_terminal_cases id to at s s' true h) [
      | inr (e, _, _) ↦ absurd (ground arith)
      | inl (_, (d, _, _, e)) ↦ (
        terminal_row to at d,
        complete-Foreign clock results s' s'' id (terminal_row to at d) e
            (All-Foreign_unowned id (terminal_row to at d).lease_owner results
              (terminal_row_lem to at d).1)
            k,
        (terminal_row_lem to at d).0,
      )
    ]

mark_terminal_open :
    (id : String) (to : DeliveryStatus) (at : Time) (s s' : TenantData) (changed : Bool)
    → mark_terminal id to at s ≡ ok (s', changed)
    → s'.closed ≡ false
unfolding mark_terminal
mark_terminal_open id to at s s' changed h = ground arith

mark_terminal_unsent :
    (id : String) (to : DeliveryStatus) (at : Time) (s : TenantData)
    → s.closed ≡ false
    → ((d : Delivery) → lookup id s.deliveries ≡ some d → d.status ≢ DeliveryStatus.sent)
    → mark_terminal id to at s ≡ ok (s, false)
unfolding mark_terminal
mark_terminal_unsent id to at s open_now h = elim (Option-cases (lookup id s.deliveries)) [
  | inl e ↦ ground arith
  | inr (d, e) ↦ ground (arith, status_eq_iff d.status DeliveryStatus.sent, h d e)
]

-- A notification that is delivered again changes nothing: after a first one, of whatever outcome,
-- a second reports no change and leaves the data as it is.
mark_terminal_again :
    (id : String) (to to' : DeliveryStatus) (at at' : Time) (s s' : TenantData) (changed : Bool)
    → to ≢ DeliveryStatus.sent
    → mark_terminal id to at s ≡ ok (s', changed)
    → mark_terminal id to' at' s' ≡ ok (s', false)
mark_terminal_again id to to' at at' s s' changed n h =
    mark_terminal_unsent id to' at' s' (mark_terminal_open id to at s s' changed h)
      (elim (mark_terminal_cases id to at s s' changed h) [
        | inr (_, e, unsent) ↦ λ d k. unsent d (subst (λ t. lookup id t.deliveries ≡ some d) e k)
        | inl (_, (d, _, _, e)) ↦ λ d' k. ground (arith, terminal_row_lem to at d)
      ])

-- Committing a result a second time changes nothing, neither the row nor the attempts: the first
-- commit gave up the lease that the second one needs.
complete_one_idem :
    (now now' : Time) (res : DeliveryResult) (s : TenantData)
    → complete_one now' res (complete_one now res s) ≡ complete_one now res s
complete_one_idem now now' res s = elim (Option-cases (lookup res.delivery_id s.deliveries)) [
  | inl e ↦ rw (complete_one_missing now res s e) (complete_one_missing now' res s e)
  | inr (d, e) ↦ elim (Bool-cases (stale res d)) [
    | inl st ↦ rw (complete_one-stale now res s d e st) (complete_one-stale now' res s d e st)
    | inr fresh ↦
        complete_one-stale now' res (complete_one now res s) (apply_result now res d)
          (complete_one_fresh now res s d e fresh) (stale-apply_result now res d)
  ]
]
