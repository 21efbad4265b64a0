-- ===== src/Memstore/Deliveries/Settled.antt =====
-- A delivery is not sent twice: once its outcome is committed, nothing that runs by itself takes
-- it up again.
use sendplane.Common.{
  ℕ, String, ◌≡◌, refl, ◌∙◌, ◌≢◌, ◌⊎◌, inl, inr, List, [], ◌∷◌, some, Bool, true, false, arith,
  eq_iff, lookup, adjust, All, Bool-cases, lookup-adjust, contains, keys,
}
use sendplane.Store.Enums.{DeliveryStatus, status_eq_iff, terminal}
use sendplane.Store.Errors.{Result, ok, err, ◌>>◌}
use sendplane.Store.Time.{Time, truncate_time}
use sendplane.Store.Delivery.{Delivery, DeliveryResult, ClaimRequest}
use sendplane.Memstore.{TenantData, check}
use sendplane.Memstore.Deliveries.Rows.{truncate_delivery, match_status, any_status}
use sendplane.Memstore.Deliveries.Claim.{claim, claimed, candidate, claimable_status}
use sendplane.Memstore.Deliveries.Complete.{
  Interaction, complete, mark_sent, sent_row, terminal_row, interacted,
}
use sendplane.Memstore.Deliveries.Bulk.{
  release_expired_leases, lease_expired, released, bulk_transition, transitioned,
  transition_matches, change_chosen,
}
use sendplane.Memstore.Deliveries.Valid.{IsValid}
use sendplane.Memstore.Deliveries.Leases.{claim_keeps_others, candidate_of_claimed}
use sendplane.Memstore.Deliveries.Fencing.{complete-Foreign, All-Foreign_unowned}
use sendplane.Memstore.Deliveries.Recovery.{change_chosen_cases}
use sendplane.Memstore.Deliveries.History.{
  Op, inserts, claims, completes, sends, ends, interacts, releases, transitions, requeues, removes,
  step, run, settle, settle_unit, step-IsValid, step_ends, step_interacts,
}

-- The outcome is committed: a final status, and nobody holds the lease.
pub record IsSettled (d : Delivery) : Type 0 where
  pub final : terminal d.status ≡ true
  pub unowned : d.lease_owner ≡ ""

-- The row still records the same message and the same attempts.
pub record SameOutcome (d e : Delivery) : Type 0 where
  pub settled : IsSettled e
  same_message : e.message_id ≡ d.message_id
  same_attempts : e.attempt_count ≡ d.attempt_count

-- The operations of the senders, the bounce pollers, the tracker and the control loops. Not among
-- them are those that a caller asks for by name: an insertion under an identifier of the caller's
-- choice, the retry of a campaign, and retention.
abbrev pub IsAutomatic : Op → Type 0
IsAutomatic (inserts ds clock) = ⊥
IsAutomatic (claims req) = Unit {0}
IsAutomatic (completes results clock) = Unit {0}
IsAutomatic (sends id owner message_id at) = Unit {0}
IsAutomatic (ends id to at) = terminal to ≡ true
IsAutomatic (interacts id at field) = Unit {0}
IsAutomatic (releases now limit) = Unit {0}
IsAutomatic (transitions campaign from to limit clock) =
    (from ≢ []) × All (λ st. terminal st ≡ false) from
IsAutomatic (requeues f limit) = ⊥
IsAutomatic (removes campaign cutoff limit) = ⊥

abbrev Keeps : String → Delivery → TenantData → Type 0
Keeps j d t = (e : Delivery) × (lookup j t.deliveries ≡ some e) × SameOutcome d e

unchanged :
    (j : String) (d : Delivery) (t : TenantData)
    → lookup j t.deliveries ≡ some d
    → IsSettled d
    → Keeps j d t
unchanged j d t h st = (d, h, record { settled = st; same_message = refl; same_attempts = refl })

not_candidate_of_final :
    (req : ClaimRequest) (k : String) (d : Delivery)
    → terminal d.status ≡ true
    → candidate req k d ≡ false
unfolding candidate claimable_status
not_candidate_of_final req k d h = ground arith

settle-claim :
    (req : ClaimRequest) (s : TenantData) (j : String) (d : Delivery)
    → IsValid s
    → lookup j s.deliveries ≡ some d
    → IsSettled d
    → (r : Result (TenantData × List Delivery)) → claim req s ≡ r
    → Keeps j d (settle s r)
settle-claim req s j d v at st (err e) h = unchanged j d s at st
settle-claim req s j d v at st (ok (s', out)) h =
    unchanged j d s'
      (claim_keeps_others req s s' out j v h
          (elim (Bool-cases (contains (keys (claimed req s.deliveries)) j)) [
            | inr e ↦ e
            | inl e ↦
                let (d', at', c) = candidate_of_claimed req s.deliveries v.rows j e in
                absurd (ground (arith, not_candidate_of_final req j d' (ground (arith, st.final))))
          ])
        ∙ at)
      st

settle-complete :
    (results : List DeliveryResult) (clock : Time) (s : TenantData) (j : String) (d : Delivery)
    → lookup j s.deliveries ≡ some d
    → IsSettled d
    → (r : Result TenantData) → complete results clock s ≡ r
    → Keeps j d (settle_unit s r)
settle-complete results clock s j d at st (err e) h = unchanged j d s at st
settle-complete results clock s j d at st (ok s') h =
    unchanged j d s'
      (complete-Foreign clock results s s' j d at
        (All-Foreign_unowned j d.lease_owner results st.unowned) h)
      st

step_sends_settled :
    (id owner message_id : String) (at : Time) (s : TenantData) (j : String) (d : Delivery)
    → lookup j s.deliveries ≡ some d
    → IsSettled d
    → lookup j (step (sends id owner message_id at) s).deliveries ≡ some d
unfolding step mark_sent
step_sends_settled id owner message_id at s j d h st =
    ground (arith, st.final, eq_iff id j, lookup-adjust id j (sent_row message_id at) s.deliveries)

terminal_row-SameOutcome :
    (to : DeliveryStatus) (at : Time) (d : Delivery)
    → terminal to ≡ true
    → SameOutcome d (terminal_row to at d)
unfolding terminal_row truncate_delivery
terminal_row-SameOutcome to at d h = record {
  settled = record { final = h; unowned = refl };
  same_message = refl;
  same_attempts = refl;
}

interacted-SameOutcome :
    (field : Interaction) (at : Time) (d : Delivery)
    → IsSettled d
    → SameOutcome d (interacted field at d)
unfolding interacted truncate_delivery
interacted-SameOutcome Interaction.opened at d h = record {
  settled = record { final = h.final; unowned = h.unowned };
  same_message = refl;
  same_attempts = refl;
}
interacted-SameOutcome Interaction.clicked at d h = record {
  settled = record { final = h.final; unowned = h.unowned };
  same_message = refl;
  same_attempts = refl;
}
interacted-SameOutcome Interaction.unsubscribed at d h = record {
  settled = record { final = h.final; unowned = h.unowned };
  same_message = refl;
  same_attempts = refl;
}

-- A row under `adjust` is changed or not.
adjusted_cases :
    (id j : String) (f : Delivery → Delivery) (s t : TenantData) (d : Delivery)
    → lookup j s.deliveries ≡ some d
    → (t ≡ s) ⊎ (t ≡ record s { deliveries = adjust id f s.deliveries })
    → (lookup j t.deliveries ≡ some d) ⊎ (lookup j t.deliveries ≡ some (f d))
adjusted_cases id j f s t d h c = ground (arith, lookup-adjust id j f s.deliveries)

adjusted_settled :
    (id j : String) (f : Delivery → Delivery) (s t : TenantData) (d : Delivery)
    → lookup j s.deliveries ≡ some d
    → IsSettled d
    → SameOutcome d (f d)
    → (t ≡ s) ⊎ (t ≡ record s { deliveries = adjust id f s.deliveries })
    → Keeps j d t
adjusted_settled id j f s t d h st same c = elim (adjusted_cases id j f s t d h c) [
  | inl e ↦ unchanged j d t e st
  | inr e ↦ (f d, e, same)
]

-- A bulk change passes over a row that it does not match.
bulk_settled :
    (p : String → Delivery → Bool) (limit : ℕ) (f : Delivery → Delivery) (s : TenantData)
    (j : String) (d : Delivery)
    → IsValid s
    → lookup j s.deliveries ≡ some d
    → IsSettled d
    → p j d ≡ false
    → Keeps j d (settle s (check s >> ok (change_chosen p limit f s)))
bulk_settled p limit f s j d v h st miss = elim (change_chosen_cases p limit f s j d v.rows h) [
  | inr (hit, _) ↦ absurd (ground arith)
  | inl e ↦
      unchanged j d (settle s (check s >> ok (change_chosen p limit f s)))
        (elim (Bool-cases s.closed) [ inl c ↦ ground arith | inr c ↦ ground arith ]) st
]

not_expired_of_final :
    (now : Time) (j : String) (d : Delivery)
    → terminal d.status ≡ true
    → lease_expired now j d ≡ false
unfolding lease_expired
not_expired_of_final now j d h = ground arith

any_status_of_final :
    (from : List DeliveryStatus) (st : DeliveryStatus)
    → All (λ x. terminal x ≡ false) from
    → terminal st ≡ true
    → any_status from st ≡ false
any_status_of_final [] st h f = refl
any_status_of_final (x ∷ from) st h f =
    ground (arith, status_eq_iff x st, any_status_of_final from st h.1 f)

not_matching_of_final :
    (campaign : String) (from : List DeliveryStatus) (to : DeliveryStatus) (j : String)
    (d : Delivery)
    → (from ≢ []) × All (λ x. terminal x ≡ false) from
    → terminal d.status ≡ true
    → transition_matches campaign from to j d ≡ false
unfolding transition_matches match_status
not_matching_of_final campaign [] to j d h f = absurd (h.0 refl)
not_matching_of_final campaign (x ∷ from) to j d h f =
    ground (arith, any_status_of_final (x ∷ from) d.status h.1 f)

-- One operation that runs by itself keeps a settled row settled.
step-IsSettled :
    (op : Op) (s : TenantData) (j : String) (d : Delivery)
    → IsAutomatic op
    → IsValid s
    → lookup j s.deliveries ≡ some d
    → IsSettled d
    → Keeps j d (step op s)
unfolding step release_expired_leases bulk_transition
step-IsSettled (inserts ds clock) s j d a v h st = absurd a
step-IsSettled (claims req) s j d a v h st = settle-claim req s j d v h st (claim req s) refl
step-IsSettled (completes results clock) s j d a v h st =
    settle-complete results clock s j d h st (complete results clock s) refl
step-IsSettled (sends id owner message_id at) s j d a v h st =
    unchanged j d (step (sends id owner message_id at) s)
      (step_sends_settled id owner message_id at s j d h st) st
step-IsSettled (ends id to at) s j d a v h st =
    adjusted_settled id j (terminal_row to at) s _ d h st (terminal_row-SameOutcome to at d a)
      (step_ends id to at s)
step-IsSettled (interacts id at field) s j d a v h st =
    adjusted_settled id j (interacted field at) s _ d h st (interacted-SameOutcome field at d st)
      (step_interacts id at field s)
step-IsSettled (releases now limit) s j d a v h st =
    bulk_settled (lease_expired (truncate_time now)) limit (released (truncate_time now)) s j d v h
      st (not_expired_of_final (truncate_time now) j d st.final)
step-IsSettled (transitions campaign from to limit clock) s j d a v h st =
    bulk_settled (transition_matches campaign from to) limit (transitioned to (truncate_time clock))
      s j d v h st (not_matching_of_final campaign from to j d a st.final)
step-IsSettled (requeues f limit) s j d a v h st = absurd a
step-IsSettled (removes campaign cutoff limit) s j d a v h st = absurd a

-- A delivery whose outcome is committed stays so through any history of claims, completions, sent
-- marks, bounces, interactions, lease releases and cancellations: it keeps a final status and no
-- owner, its message and its attempts, so no worker sends it again.
pub settled_stays_settled :
    (ops : List Op) (s : TenantData) (j : String) (d : Delivery)
    → All IsAutomatic ops
    → IsValid s
    → lookup j s.deliveries ≡ some d
    → IsSettled d
    → (e : Delivery) × (lookup j (run ops s).deliveries ≡ some e) × SameOutcome d e
unfolding run
settled_stays_settled [] s j d a v h st = unchanged j d s h st
settled_stays_settled (op ∷ ops) s j d a v h st =
    let (e, at, same) = step-IsSettled op s j d a.0 v h st in
    let (e', at', same') =
      settled_stays_settled ops (step op s) j e a.1 (step-IsValid op s v) at same.settled in
    (
      e',
      at',
      record {
        settled = same'.settled;
        same_message = same'.same_message ∙ same.same_message;
        same_attempts = same'.same_attempts ∙ same.same_attempts;
      },
    )
