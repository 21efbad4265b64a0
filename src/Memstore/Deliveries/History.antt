-- ===== src/Memstore/Deliveries/History.antt =====
-- Histories: any sequence of repository operations, by any number of workers and loops. The
-- provider's mutex makes each operation one step, so a history is a list of operations.
use sendplane.Common.{
  ℕ, String, ◌≡◌, refl, ap, sym, subst, ◌∙◌, ◌⊎◌, inl, inr, List, [], ◌∷◌, arith, IsMap, lookup,
  adjust,
}
use sendplane.Store.Enums.{DeliveryStatus}
use sendplane.Store.Errors.{Result, ok, err, ◌>>◌}
use sendplane.Store.Time.{Time, truncate_time}
use sendplane.Store.Delivery.{Delivery, DeliveryResult, ClaimRequest, RetryFilter}
use sendplane.Memstore.{TenantData, check}
use sendplane.Memstore.Deliveries.Rows.{truncate_delivery}
use sendplane.Memstore.Deliveries.Claim.{claim}
use sendplane.Memstore.Deliveries.Insert.{insert_batch, insert_attempt}
use sendplane.Memstore.Deliveries.Complete.{
  Interaction, complete, complete_all, complete_one, apply_result, mark_sent, sent_row,
  mark_terminal, terminal_row, set_first, interacted,
}
use sendplane.Memstore.Deliveries.Bulk.{
  release_expired_leases, lease_expired, released, bulk_transition, transitioned,
  transition_matches, requeue, requeued, requeue_matches, delete_before,
}
use sendplane.Memstore.Deliveries.Valid.{IsValid, KeepsIdentity, adjust-IsValid}
use sendplane.Memstore.Deliveries.Leases.{claim-IsValid}
use sendplane.Memstore.Deliveries.Ingest.{insert_batch-IsValid}
use sendplane.Memstore.Deliveries.Recovery.{
  change_chosen-IsValid, released-KeepsIdentity, transitioned-KeepsIdentity, requeued-KeepsIdentity,
}
use sendplane.Memstore.Deliveries.Removal.{delete_rows-IsValid}

pub data Op : Type 0 where
  inserts : List Delivery → Time → Op
  claims : ClaimRequest → Op
  completes : List DeliveryResult → Time → Op
  sends : String → String → String → Time → Op
  ends : String → DeliveryStatus → Time → Op
  interacts : String → Time → Interaction → Op
  releases : Time → ℕ → Op
  transitions : String → List DeliveryStatus → DeliveryStatus → ℕ → Time → Op
  requeues : RetryFilter → ℕ → Op
  removes : String → Time → ℕ → Op

-- An operation that fails leaves the data as it was.
abbrev pub settle {ℓ} : {A : Type ℓ} → TenantData → Result (TenantData × A) → TenantData
settle s (ok (s', a)) = s'
settle s (err e) = s

abbrev pub settle_unit : TenantData → Result TenantData → TenantData
settle_unit s (ok s') = s'
settle_unit s (err e) = s

unfoldable pub step : Op → TenantData → TenantData
step (inserts ds clock) s = settle s (insert_batch ds clock s)
step (claims req) s = settle s (claim req s)
step (completes results clock) s = settle_unit s (complete results clock s)
step (sends id owner message_id at) s = settle_unit s (mark_sent id owner message_id at s)
step (ends id to at) s = settle s (mark_terminal id to at s)
step (interacts id at field) s = settle s (set_first id at field s)
step (releases now limit) s = settle s (release_expired_leases now limit s)
step (transitions campaign from to limit clock) s =
    settle s (bulk_transition campaign from to limit clock s)
step (requeues f limit) s = settle s (requeue f limit s)
step (removes campaign cutoff limit) s = settle s (delete_before campaign cutoff limit s)

unfoldable pub run : List Op → TenantData → TenantData
run [] s = s
run (op ∷ ops) s = run ops (step op s)

-- The data with one row changed.
abbrev pub adjusted : TenantData → String → (Delivery → Delivery) → TenantData
adjusted s id f = record s { deliveries = adjust id f s.deliveries }

apply_result-KeepsIdentity :
    (now : Time) (res : DeliveryResult) → KeepsIdentity (apply_result now res)
unfolding apply_result truncate_delivery
apply_result-KeepsIdentity now res = record {
  same_id = λ d. refl;
  same_campaign = λ d. refl;
  same_email = λ d. refl;
}

sent_row-KeepsIdentity : (message_id : String) (at : Time) → KeepsIdentity (sent_row message_id at)
unfolding sent_row truncate_delivery
sent_row-KeepsIdentity message_id at = record {
  same_id = λ d. refl;
  same_campaign = λ d. refl;
  same_email = λ d. refl;
}

terminal_row-KeepsIdentity : (to : DeliveryStatus) (at : Time) → KeepsIdentity (terminal_row to at)
unfolding terminal_row truncate_delivery
terminal_row-KeepsIdentity to at = record {
  same_id = λ d. refl;
  same_campaign = λ d. refl;
  same_email = λ d. refl;
}

interacted-KeepsIdentity : (field : Interaction) (at : Time) → KeepsIdentity (interacted field at)
unfolding interacted truncate_delivery
interacted-KeepsIdentity Interaction.opened at = record {
  same_id = λ d. refl;
  same_campaign = λ d. refl;
  same_email = λ d. refl;
}
interacted-KeepsIdentity Interaction.clicked at = record {
  same_id = λ d. refl;
  same_campaign = λ d. refl;
  same_email = λ d. refl;
}
interacted-KeepsIdentity Interaction.unsubscribed at = record {
  same_id = λ d. refl;
  same_campaign = λ d. refl;
  same_email = λ d. refl;
}

-- Rows and index decide validity.
IsValid-of_rows :
    (s t : TenantData)
    → t.deliveries ≡ s.deliveries
    → t.campaign_emails ≡ s.campaign_emails
    → IsValid s
    → IsValid t
IsValid-of_rows s t d c v = record {
  rows = subst IsMap (sym d) v.rows;
  ids = λ j e h. v.ids j e (ap (lookup j) (sym d) ∙ h);
  indexed = λ j e h n. ap (lookup _) c ∙ v.indexed j e (ap (lookup j) (sym d) ∙ h) n;
}

-- What a completion does to the maps: nothing, or the row takes the result.
complete_one_rows :
    (now : Time) (res : DeliveryResult) (s : TenantData)
    → (complete_one now res s ≡ s)
      ⊎ (((complete_one now res s).deliveries
            ≡ adjust res.delivery_id (apply_result now res) s.deliveries)
          × ((complete_one now res s).campaign_emails ≡ s.campaign_emails))
unfolding complete_one insert_attempt
complete_one_rows now res s = ground arith

complete_one-IsValid :
    (now : Time) (res : DeliveryResult) (s : TenantData)
    → IsValid s
    → IsValid (complete_one now res s)
complete_one-IsValid now res s v = elim (complete_one_rows now res s) [
  | inl e ↦ subst IsValid (sym e) v
  | inr (d, c) ↦
      IsValid-of_rows (adjusted s res.delivery_id (apply_result now res)) (complete_one now res s) d
        c
        (adjust-IsValid (apply_result now res) (apply_result-KeepsIdentity now res) s
          res.delivery_id v)
]

complete_all-IsValid :
    (now : Time) (rs : List DeliveryResult) (s : TenantData)
    → IsValid s
    → IsValid (complete_all now rs s)
unfolding complete_all
complete_all-IsValid now [] s v = v
complete_all-IsValid now (r ∷ rs) s v =
    complete_all-IsValid now rs (complete_one now r s) (complete_one-IsValid now r s v)

step_sends :
    (id owner message_id : String) (at : Time) (s : TenantData)
    → (step (sends id owner message_id at) s ≡ s)
      ⊎ (step (sends id owner message_id at) s ≡ adjusted s id (sent_row message_id at))
unfolding step mark_sent
step_sends id owner message_id at s = ground arith

pub step_ends :
    (id : String) (to : DeliveryStatus) (at : Time) (s : TenantData)
    → (step (ends id to at) s ≡ s) ⊎ (step (ends id to at) s ≡ adjusted s id (terminal_row to at))
unfolding step mark_terminal
step_ends id to at s = ground arith

pub step_interacts :
    (id : String) (at : Time) (field : Interaction) (s : TenantData)
    → (step (interacts id at field) s ≡ s)
      ⊎ (step (interacts id at field) s ≡ adjusted s id (interacted field at))
unfolding step set_first
step_interacts id at field s = ground arith

maybe_adjusted-IsValid :
    (f : Delivery → Delivery) (s t : TenantData) (id : String)
    → KeepsIdentity f
    → IsValid s
    → (t ≡ s) ⊎ (t ≡ adjusted s id f)
    → IsValid t
maybe_adjusted-IsValid f s t id keep v (inl e) = subst IsValid (sym e) v
maybe_adjusted-IsValid f s t id keep v (inr e) =
    subst IsValid (sym e) (adjust-IsValid f keep s id v)

-- A settled operation is valid if its success is.
settle-IsValid {ℓ} :
    {A : Type ℓ} (s : TenantData) (r : Result (TenantData × A))
    → IsValid s
    → ((s' : TenantData) (a : A) → r ≡ ok (s', a) → IsValid s')
    → IsValid (settle s r)
settle-IsValid s (ok (s', a)) v h = h s' a refl
settle-IsValid s (err e) v h = v

settle_unit-IsValid :
    (s : TenantData) (r : Result TenantData)
    → IsValid s
    → ((s' : TenantData) → r ≡ ok s' → IsValid s')
    → IsValid (settle_unit s r)
settle_unit-IsValid s (ok s') v h = h s' refl
settle_unit-IsValid s (err e) v h = v

complete-IsValid :
    (results : List DeliveryResult) (clock : Time) (s s' : TenantData)
    → IsValid s
    → complete results clock s ≡ ok s'
    → IsValid s'
unfolding complete
complete-IsValid results clock s s' v h =
    let e : s' ≡ complete_all (truncate_time clock) results s = ground arith in
    subst IsValid (sym e) (complete_all-IsValid (truncate_time clock) results s v)

-- A bulk operation behind the check that the provider is open.
checked-IsValid {ℓ} :
    {A : Type ℓ} (s : TenantData) (t : TenantData × A)
    → IsValid s
    → IsValid t.0
    → IsValid (settle s (check s >> ok t))
checked-IsValid s t v w =
    settle-IsValid s (check s >> ok t) v
      (λ s' a h. let e : t.0 ≡ s' = ground arith in subst IsValid e w)

-- Every operation keeps the rows well formed.
pub step-IsValid : (op : Op) (s : TenantData) → IsValid s → IsValid (step op s)
unfolding step release_expired_leases bulk_transition requeue delete_before
step-IsValid (inserts ds clock) s v =
    settle-IsValid s (insert_batch ds clock s) v (λ s' n. insert_batch-IsValid ds clock s s' n v)
step-IsValid (claims req) s v =
    settle-IsValid s (claim req s) v (λ s' out. claim-IsValid req s s' out v)
step-IsValid (completes results clock) s v =
    settle_unit-IsValid s (complete results clock s) v (λ s'. complete-IsValid results clock s s' v)
step-IsValid (sends id owner message_id at) s v =
    maybe_adjusted-IsValid (sent_row message_id at) s _ id (sent_row-KeepsIdentity message_id at) v
      (step_sends id owner message_id at s)
step-IsValid (ends id to at) s v =
    maybe_adjusted-IsValid (terminal_row to at) s _ id (terminal_row-KeepsIdentity to at) v
      (step_ends id to at s)
step-IsValid (interacts id at field) s v =
    maybe_adjusted-IsValid (interacted field at) s _ id (interacted-KeepsIdentity field at) v
      (step_interacts id at field s)
step-IsValid (releases now limit) s v = checked-IsValid s _ v (
    change_chosen-IsValid (lease_expired (truncate_time now)) limit (released (truncate_time now)) s
      (released-KeepsIdentity (truncate_time now)) v)
step-IsValid (transitions campaign from to limit clock) s v = checked-IsValid s _ v (
    change_chosen-IsValid (transition_matches campaign from to) limit
      (transitioned to (truncate_time clock)) s
      (transitioned-KeepsIdentity to (truncate_time clock)) v)
step-IsValid (requeues f limit) s v = checked-IsValid s _ v (
    change_chosen-IsValid (requeue_matches f) limit (requeued (truncate_time f.now)) s
      (requeued-KeepsIdentity (truncate_time f.now)) v)
step-IsValid (removes campaign cutoff limit) s v = checked-IsValid s _ v (delete_rows-IsValid _ s v)

-- Well formed data stay well formed over any history of the operations: every row stands under its
-- own identifier, and no campaign holds an address twice.
pub run-IsValid : (ops : List Op) (s : TenantData) → IsValid s → IsValid (run ops s)
unfolding run
run-IsValid [] s v = v
run-IsValid (op ∷ ops) s v = run-IsValid ops (step op s) (step-IsValid op s v)
