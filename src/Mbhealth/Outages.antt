-- ===== src/Mbhealth/Outages.antt =====
-- What the host hears of a mailbox: one event for an outage, and one for its end.
use sendplane.Common.{
  ◌≤◌, String, ◌≡◌, refl, inl, inr, ◌↔◌, Bool, true, false, List, [], ◌∷◌, ◌++◌, ap, sym, ◌∙◌, leb,
  if◌then◌else◌, Option, none, some, arith, Option-cases,
}
use sendplane.Store.Enums.{MailboxStatus}
use sendplane.Store.Errors.{Result, ok, ◌>>=◌}
use sendplane.Store.Time.{Time}
use sendplane.Mbhealth.{
  MailboxHealth, Kind, Outcome, EventType, MailboxStore, failures_for_event, next, transition,
  record_health,
}

-- The health after a sequence of checks.
abbrev pub checked : List (Outcome × Time) → MailboxHealth → MailboxHealth
checked [] h = h
checked ((o, now) ∷ os) h = checked os (next h o now)

-- The events of a sequence of checks, in order.
abbrev pub events_of : List (Outcome × Time) → MailboxHealth → List EventType
events_of [] h = []
events_of ((o, now) ∷ os) h =
    let rest = events_of os (next h o now) in
    elim (transition h (next h o now)) [ none ↦ rest | some e ↦ e ∷ rest ]

-- The host has been told of an outage that has not ended.
abbrev pub is_out : MailboxHealth → Bool
is_out h = leb failures_for_event h.consecutive_failures

-- The events alternate, an outage first where none is on, and leave it as stated.
abbrev pub IsAlternating : Bool → List EventType → Bool → Type 0
IsAlternating out [] finally = out ≡ finally
IsAlternating true (EventType.mailbox_recovered ∷ es) finally = IsAlternating false es finally
IsAlternating false (EventType.mailbox_unhealthy ∷ es) finally = IsAlternating true es finally
IsAlternating _ (_ ∷ es) finally = ⊥

-- A status other than error has no failures.
abbrev pub IsHealth : MailboxHealth → Type 0
IsHealth h = (h.status ≡ MailboxStatus.error) ↔ (1 ≤ h.consecutive_failures)

next-IsHealth : (h : MailboxHealth) (o : Outcome) (now : Time) → IsHealth (next h o now)
unfolding next
next-IsHealth h Outcome.works now = ground arith
next-IsHealth h (Outcome.fails stage reason) now = ground arith

-- One check: what it announces is the change of `is_out`.
transition_lem :
    (h : MailboxHealth) (o : Outcome) (now : Time)
    → IsHealth h
    → transition h (next h o now) ≡ (
        if is_out h
        then (if is_out (next h o now) then none else some EventType.mailbox_recovered)
        else (if is_out (next h o now) then some EventType.mailbox_unhealthy else none))
unfolding next transition
transition_lem h Outcome.works now k = ground arith
transition_lem h (Outcome.fails stage reason) now k = ground arith

IsAlternating-step :
    (out then_out finally : Bool) (es : List EventType) (o : Option EventType)
    → o ≡ (
        if out
        then (if then_out then none else some EventType.mailbox_recovered)
        else (if then_out then some EventType.mailbox_unhealthy else none))
    → IsAlternating then_out es finally
    → IsAlternating out (elim o [ none ↦ es | some e ↦ e ∷ es ]) finally
IsAlternating-step true true finally es o e k = rw e k
IsAlternating-step true false finally es o e k = rw e k
IsAlternating-step false true finally es o e k = rw e k
IsAlternating-step false false finally es o e k = rw e k

events_alternate :
    (os : List (Outcome × Time)) (h : MailboxHealth)
    → IsHealth h
    → IsAlternating (is_out h) (events_of os h) (is_out (checked os h))
events_alternate [] h k = refl
events_alternate ((o, now) ∷ os) h k =
    IsAlternating-step (is_out h) (is_out (next h o now)) _ (events_of os (next h o now))
      (transition h (next h o now)) (transition_lem h o now k)
      (events_alternate os (next h o now) (next-IsHealth h o now))

-- A store of one mailbox that keeps the row's health and the types of the events enqueued.
abbrev pub row_store : MailboxStore (MailboxHealth × List EventType)
row_store = record {
  update_health = λ kind id h s. ok (h, s.1);
  enqueue = λ e s. ok (s.0, s.1 ++ (e.kind ∷ []));
}

-- A sequence of checks, each recorded on the row that the one before has left.
abbrev pub record_all :
    Kind
    → String
    → String
    → List (Outcome × Time)
    → MailboxHealth × List EventType
    → Result (MailboxHealth × List EventType)
record_all kind id name [] s = ok s
record_all kind id name ((o, now) ∷ os) s =
    record_health row_store kind (record { id = id; name = name; health = s.0 }) o now s >>= λ t.
    record_all kind id name os t

append_one : (es fs : List EventType) (e : EventType) → (es ++ (e ∷ [])) ++ fs ≡ es ++ (e ∷ fs)
append_one [] fs e = refl
append_one (x ∷ es) fs e = ap (λ zs. x ∷ zs) (append_one es fs e)

append_nil : (es : List EventType) → es ++ [] ≡ es
append_nil [] = refl
append_nil (x ∷ es) = ap (λ zs. x ∷ zs) (append_nil es)

-- The events of a sequence of checks whose first one announces `o`.
events_step :
    (r : Outcome) (now : Time) (os : List (Outcome × Time)) (h : MailboxHealth)
    (o : Option EventType)
    → transition h (next h r now) ≡ o
    → events_of ((r, now) ∷ os) h
      ≡ elim o [ none ↦ events_of os (next h r now) | some e ↦ e ∷ events_of os (next h r now) ]
events_step r now os h o e =
    ap
      (λ t. elim t [
        | none ↦ events_of os (next h r now)
        | some x ↦ x ∷ events_of os (next h r now)
      ])
      e

record_all_lem :
    (kind : Kind) (id name : String) (os : List (Outcome × Time)) (h : MailboxHealth)
    (es : List EventType)
    → record_all kind id name os (h, es) ≡ ok (checked os h, es ++ events_of os h)
unfolding record_health
record_all_lem kind id name [] h es = ap (λ fs. ok (h, fs)) (sym (append_nil es))
record_all_lem kind id name ((o, now) ∷ os) h es =
    elim (Option-cases (transition h (next h o now))) [
      | inl quiet ↦
          rw (quiet, events_step o now os h none quiet)
            (record_all_lem kind id name os (next h o now) es)
      | inr (e, told) ↦
          rw (told, events_step o now os h (some e) told)
            (record_all_lem kind id name os (next h o now) (es ++ (e ∷ []))
              ∙ ap (λ fs. ok (checked os (next h o now), fs))
                  (append_one es (events_of os (next h o now)) e))
    ]

-- Over any sequence of recorded checks of a mailbox, the events enqueued alternate between
-- unhealthy and recovered: each outage is announced once, and so is its end. The last one announced
-- is an outage exactly if the failures in a row have reached two and no check has worked since.
pub outages_alternate :
    (kind : Kind) (id name : String) (os : List (Outcome × Time)) (h : MailboxHealth)
    → IsHealth h
    → (es : List EventType) × (record_all kind id name os (h, []) ≡ ok (checked os h, es))
      × IsAlternating (is_out h) es (is_out (checked os h))
outages_alternate kind id name os h k =
    (events_of os h, record_all_lem kind id name os h [], events_alternate os h k)
