-- ===== src/Control/Interleaving.antt =====
-- Any interleaving of the control plane's calls on one tenant: a replica or the leader reads a row,
-- and acts on what it has read at any later time.
use sendplane.Common.{
  ℕ, zero, suc, String, ◌≡◌, refl, sym, subst, ◌∙◌, inl, inr, List, [], ◌∷◌, Option, none, some,
  if◌then◌else◌, arith, Map, lookup, All, Bool-cases,
}
use sendplane.Store.Enums.{CampaignStatus, campaign_status_eq, campaign_status_eq_iff}
use sendplane.Store.Time.{Time}
use sendplane.Store.Delivery.{RetryFilter}
use sendplane.Store.Campaign.{Campaign}
use sendplane.Memstore.Tenant.{Tenant}
use sendplane.Control.Campaign.{
  Outcome, done, refused, CampaignPayload, start_read, pause_read, resume_read, cancel_read,
}
use sendplane.Control.Retry.{retry_read}
use sendplane.Control.Loops.{schedule_one, finalize_one, cancel_one, FinalizerConfig, UniqueCounts}
use sendplane.Control.Evolution.{EvolvedAt, Evolves, IsRead, Evolves-refl, IsRead-Evolves, IfDone}
use sendplane.Control.Lifecycle.{
  start_read-Evolves, pause_read-Evolves, resume_read-Evolves, cancel_read-Evolves,
}
use sendplane.Control.LoopSteps.{
  schedule_one-Evolves, finalize_one-Evolves, retry_read-Evolves, cancel_one-Evolves,
}

-- A call, with the readings of the two clocks where it takes them.
pub data Action : Type 0 where
  starts : Time → Action
  pauses resumes cancels schedules : Action
  retries : ℕ → RetryFilter → Action
  finalizes : FinalizerConfig → Option UniqueCounts → Map ℕ → Action
  cancels_rows : ℕ → Action

-- A refused call leaves the data as it was.
abbrev pub after_call : Tenant → Outcome Tenant → Tenant
after_call s (done t) = t
after_call s (refused e) = s

abbrev pub after_tick : Tenant → Outcome (Map ℕ × Tenant) → Tenant
after_tick s (done r) = r.1
after_tick s (refused e) = s

-- A tenant's data, and the campaign rows that calls in progress have read.
pub record System : Type 0 where
  pub tenant : Tenant
  pub reads : List Campaign

abbrev pub nth : ℕ → List Campaign → Option Campaign
nth i [] = none
nth zero (c ∷ cs) = some c
nth (suc i) (c ∷ cs) = nth i cs

module _ (marshal : CampaignPayload → String) where
  -- The scheduler lists the scheduled campaigns, the finalizer the running ones and the canceller
  -- the cancelled ones.
  abbrev pub act : Action → Time → Time → Campaign → Tenant → Tenant
  act (starts at) now clock c s = after_call s (start_read marshal at now clock c s)
  act pauses now clock c s = after_call s (pause_read marshal now clock c s)
  act resumes now clock c s = after_call s (resume_read marshal now clock c s)
  act cancels now clock c s = after_call s (cancel_read marshal now clock c s)
  act (retries chunk filter) now clock c s = (retry_read marshal chunk filter now clock c s).tenant
  act schedules now clock c s =
      if campaign_status_eq c.status CampaignStatus.scheduled
      then after_call s (schedule_one marshal c now clock s)
      else s
  act (finalizes cfg unique skips) now clock c s =
      if campaign_status_eq c.status CampaignStatus.running
      then after_tick s (finalize_one marshal cfg unique c now clock skips s)
      else s
  act (cancels_rows chunk) now clock c s =
      if campaign_status_eq c.status CampaignStatus.cancelled
      then after_call s (cancel_one chunk c clock s)
      else s

  -- One step: a row is read, or a call that has read one is carried out.
  pub data Step : System → System → Type 0 where
    step_read :
        {s : System} (c : Campaign)
        → lookup c.id s.tenant.campaigns ≡ some c
        → Step s (record s { reads = c ∷ s.reads })
    step_act :
        {s : System} (i : ℕ) (c : Campaign) (a : Action) (now clock : Time)
        → nth i s.reads ≡ some c
        → Step s (record s { tenant = act a now clock c s.tenant })

  pub data Reaches : System → System → Type 0 where
    here : {s : System} → Reaches s s
    further : {s t u : System} → Step s t → Reaches t u → Reaches s u

after_call-Evolves :
    (s : Tenant) (o : Outcome Tenant) → IfDone (Evolves s) o → Evolves s (after_call s o)
after_call-Evolves s (done t) v = v
after_call-Evolves s (refused e) v = Evolves-refl s s refl

after_tick-Evolves :
    (s : Tenant) (o : Outcome (Map ℕ × Tenant))
    → IfDone (λ r. Evolves s r.1) o
    → Evolves s (after_tick s o)
after_tick-Evolves s (done r) v = v
after_tick-Evolves s (refused e) v = Evolves-refl s s refl

listed-Evolves :
    (c : Campaign) (st : CampaignStatus) (s t : Tenant)
    → (c.status ≡ st → Evolves s t)
    → Evolves s (if campaign_status_eq c.status st then t else s)
listed-Evolves c st s t v = elim (Bool-cases (campaign_status_eq c.status st)) [
  | inl same ↦ rw same (v ((campaign_status_eq_iff c.status st).0 same))
  | inr other ↦ rw other (Evolves-refl s s refl)
]

-- Every row that was read is still what `IsRead` says.
abbrev AreRead : System → Type 0
AreRead s = All (λ c. IsRead c s.tenant) s.reads

nth-IsRead :
    (s : Tenant) (i : ℕ) (cs : List Campaign) (c : Campaign)
    → All (λ d. IsRead d s) cs
    → nth i cs ≡ some c
    → IsRead c s
nth-IsRead s i [] c h e = absurd (ground arith)
nth-IsRead s zero (d ∷ cs) c h e = subst (λ x. IsRead x s) (some_inj d c e) h.0
  where
    some_inj : (x y : Campaign) → ◌≡◌ {A = Option Campaign} (some x) (some y) → x ≡ y
    some_inj x y q = ground arith
nth-IsRead s (suc i) (d ∷ cs) c h e = nth-IsRead s i cs c h.1 e

AreRead-Evolves :
    (s t : Tenant) (cs : List Campaign)
    → Evolves s t
    → All (λ c. IsRead c s) cs
    → All (λ c. IsRead c t) cs
AreRead-Evolves s t [] v h = tt
AreRead-Evolves s t (c ∷ cs) v h = (IsRead-Evolves c s t v h.0, AreRead-Evolves s t cs v h.1)

fresh-IsRead : (c : Campaign) (s : Tenant) → lookup c.id s.campaigns ≡ some c → IsRead c s
fresh-IsRead c s e row at =
    let same : ◌≡◌ {A = Option Campaign} (some c) (some row) = sym e ∙ at in ground arith

module _ (marshal : CampaignPayload → String) where
  act-Evolves :
      (a : Action) (now clock : Time) (c : Campaign) (s : Tenant)
      → IsRead c s
      → Evolves s (act marshal a now clock c s)
  act-Evolves (starts at) now clock c s h =
      after_call-Evolves s _ (start_read-Evolves marshal now clock c s h at)
  act-Evolves pauses now clock c s h =
      after_call-Evolves s _ (pause_read-Evolves marshal now clock c s h)
  act-Evolves resumes now clock c s h =
      after_call-Evolves s _ (resume_read-Evolves marshal now clock c s h)
  act-Evolves cancels now clock c s h =
      after_call-Evolves s _ (cancel_read-Evolves marshal now clock c s h)
  act-Evolves (retries chunk filter) now clock c s h =
      retry_read-Evolves marshal now clock c s h chunk filter
  act-Evolves schedules now clock c s h =
      listed-Evolves c CampaignStatus.scheduled s _
        (λ e. after_call-Evolves s _ (schedule_one-Evolves marshal now clock c s h e))
  act-Evolves (finalizes cfg unique skips) now clock c s h =
      listed-Evolves c CampaignStatus.running s _ (λ e.
        after_tick-Evolves s _ (finalize_one-Evolves marshal now clock c s h cfg unique skips e))
  act-Evolves (cancels_rows chunk) now clock c s h =
      listed-Evolves c CampaignStatus.cancelled s _
        (λ e. after_call-Evolves s _ (cancel_one-Evolves chunk c clock s))

  Step-AreRead :
      (s t : System) → Step marshal s t → AreRead s → Evolves s.tenant t.tenant × AreRead t
  Step-AreRead s _ (step_read c e) h =
      (Evolves-refl s.tenant s.tenant refl, (fresh-IsRead c s.tenant e, h))
  Step-AreRead s _ (step_act i c a now clock e) h =
      let v = act-Evolves a now clock c s.tenant (nth-IsRead s.tenant i s.reads c h e) in
      (v, AreRead-Evolves s.tenant (act marshal a now clock c s.tenant) s.reads v h)

  Reaches-AreRead : (s t : System) → Reaches marshal s t → AreRead s → AreRead t
  Reaches-AreRead s _ here h = h
  Reaches-AreRead s u (further {t = t} step rest) h =
      Reaches-AreRead t u rest (Step-AreRead s t step h).1

  -- From data of which nothing has been read yet, every step of every interleaving leaves each
  -- campaign row where it is or moves its status along an edge of the state machine, under a new
  -- version; no row appears or is lost, however old the row is that a call works from.
  pub interleaving_moves :
      (s t u : System)
      → s.reads ≡ []
      → Reaches marshal s t
      → Step marshal t u
      → Evolves t.tenant u.tenant
  interleaving_moves s t u none_read reached step =
      (Step-AreRead t u step (
        Reaches-AreRead s t reached
          (subst (λ cs. All (λ c. IsRead c s.tenant) cs) (sym none_read) tt))).0

  cancelled_at :
      (o p : Option Campaign)
      → EvolvedAt o p
      → (r : Campaign) × (o ≡ some r) × (r.status ≡ CampaignStatus.cancelled)
      → (r : Campaign) × (p ≡ some r) × (r.status ≡ CampaignStatus.cancelled)
  cancelled_at none p v (r, e, c) = absurd (ground arith)
  cancelled_at (some q) none v (r, e, c) = absurd v
  cancelled_at (some q) (some u) v (r, e, c) = (u, refl, ground arith)

  cancelled_from :
      (id : String) (s t : System)
      → Reaches marshal s t
      → AreRead s
      → (r : Campaign) × (lookup id s.tenant.campaigns ≡ some r)
        × (r.status ≡ CampaignStatus.cancelled)
      → (r : Campaign) × (lookup id t.tenant.campaigns ≡ some r)
        × (r.status ≡ CampaignStatus.cancelled)
  cancelled_from id s _ here h c = c
  cancelled_from id s u (further {t = t} step rest) h c =
      let next = Step-AreRead s t step h in
      cancelled_from id t u rest next.1 (cancelled_at _ _ (next.0 id) c)

  -- A campaign that is cancelled at some point of an interleaving stays cancelled in all that
  -- follows, also against calls that read it before it was cancelled.
  pub cancelled_forever :
      (id : String) (s t u : System) (r : Campaign)
      → s.reads ≡ []
      → Reaches marshal s t
      → lookup id t.tenant.campaigns ≡ some r
      → r.status ≡ CampaignStatus.cancelled
      → Reaches marshal t u
      → (q : Campaign) × (lookup id u.tenant.campaigns ≡ some q)
        × (q.status ≡ CampaignStatus.cancelled)
  cancelled_forever id s t u r none_read reached at c later =
      cancelled_from id t u later
        (Reaches-AreRead s t reached
          (subst (λ cs. All (λ c. IsRead c s.tenant) cs) (sym none_read) tt))
        (r, at, c)
