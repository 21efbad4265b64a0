-- ===== src/Control/Kept.antt =====
-- internal/control: what each step of a chunked deletion or of a walk keeps, the whole keeps.
use sendplane.Common.{
  ℕ, zero, suc, ◌+◌, String, ◌≡◌, subst, inl, inr, Bool, true, List, [], ◌∷◌, some, str_eq, eq_iff,
  arith, ltb, Map, lookup, contains, All, Bool-cases, Option-cases, take, length,
}
use sendplane.Store.Enums.{CampaignStatus}
use sendplane.Store.Errors.{Result-cases, Result, ok}
use sendplane.Store.Campaign.{Campaign}
use sendplane.Memstore.Tenant.{Tenant}
use sendplane.Memstore.Campaigns.{rows_of, listed_ids, page_limit, list_by_status}
use sendplane.Control.Walk.{WalkEnd, Worked, walk_items, each_campaign}
use sendplane.Control.Maintenance.{Chunked, delete_chunks}

-- What each chunk keeps, the chunks keep.
pub delete_chunks_keep :
    {S : Type 0} (K : S → Type 0) (ctx_done : ℕ → Bool) (del : S → Result (S × ℕ)) (chunk : ℕ)
    → ((s : S) (r : S × ℕ) → del s ≡ ok r → K s → K r.0)
    → (left i total : ℕ) (s : S) → K s
    → K (delete_chunks ctx_done del chunk left i total s).0
unfolding delete_chunks
delete_chunks_keep K ctx_done del chunk step zero i total s h = h
delete_chunks_keep K ctx_done del chunk step (suc left) i total s h =
    let whole = delete_chunks ctx_done del chunk (suc left) i total s in
    elim (Bool-cases (ctx_done i)) [
      | inl c ↦ (let same : s ≡ whole.0 = ground arith in subst K same h)
      | inr c ↦ elim (Result-cases (del s)) [
        | inl (e, d) ↦ (let same : s ≡ whole.0 = ground arith in subst K same h)
        | inr (r, d) ↦ elim (Bool-cases (ltb r.1 chunk)) [
          | inl l ↦ (let same : r.0 ≡ whole.0 = ground arith in subst K same (step s r d h))
          | inr l ↦
              let rest = delete_chunks ctx_done del chunk left (suc i) (total + r.1) r.0 in
              let same : rest ≡ whole = ground arith in
              subst (λ (x : Chunked _). K x.0) same
                (delete_chunks_keep K ctx_done del chunk step left (suc i) (total + r.1) r.0
                  (step s r d h))
        ]
      ]
    ]

module _ (fn : Campaign → Tenant → Worked) (I : Tenant → Type 0) (Q : Campaign → Type 0)
    (step : (c : Campaign) (t : Tenant) → Q c → I t → I (fn c t).0) where
  walk_items_keep : (cs : List Campaign) (t : Tenant) → All Q cs → I t → I (walk_items fn cs t).0
  unfolding walk_items
  walk_items_keep [] t q h = h
  walk_items_keep (c ∷ cs) t q h = elim (Option-cases (fn c t).1) [
    | inl e ↦
        let same : walk_items fn cs (fn c t).0 ≡ walk_items fn (c ∷ cs) t = ground arith in
        subst (λ (w : Worked). I w.0) same (walk_items_keep cs (fn c t).0 q.1 (step c t q.0 h))
    | inr (x, e) ↦
        let same : (fn c t).0 ≡ (walk_items fn (c ∷ cs) t).0 = ground arith in
        subst I same (step c t q.0 h)
  ]

  -- What the work on each campaign keeps, the walk keeps, however it ends.
  pub each_campaign_keeps :
      (ctx_done : ℕ → Bool) (statuses : List CampaignStatus) (page_size : ℕ)
      → ((cursor : String) (t : Tenant) (r : List Campaign × String)
          → list_by_status statuses cursor page_size t ≡ ok r
          → I t
          → All Q r.0)
      → (pages page : ℕ) (cursor : String) (t : Tenant) → I t
      → I (each_campaign fn ctx_done statuses page_size pages page cursor t).0
  unfolding each_campaign
  each_campaign_keeps ctx_done statuses page_size listed zero page cursor t h = h
  each_campaign_keeps ctx_done statuses page_size listed (suc pages) page cursor t h =
      let whole = each_campaign fn ctx_done statuses page_size (suc pages) page cursor t in
      elim (Bool-cases (ctx_done page)) [
        | inl c ↦ (let same : t ≡ whole.0 = ground arith in subst I same h)
        | inr c ↦ elim (Result-cases (list_by_status statuses cursor page_size t)) [
          | inl (e, l) ↦ (let same : t ≡ whole.0 = ground arith in subst I same h)
          | inr (r, l) ↦
              let w = walk_items fn r.0 t in
              let next = walk_items_keep r.0 t (listed cursor t r l h) h in
              elim (Option-cases w.1) [
                | inr (e, x) ↦ (let same : w.0 ≡ whole.0 = ground arith in subst I same next)
                | inl x ↦ elim (Bool-cases (str_eq r.1 "")) [
                  | inl z ↦ (let same : w.0 ≡ whole.0 = ground arith in subst I same next)
                  | inr z ↦
                      let rest =
                        each_campaign fn ctx_done statuses page_size pages (suc page) r.1 w.0 in
                      let same : rest ≡ whole = ground arith in
                      subst (λ (y : Tenant × WalkEnd). I y.0) same
                        (each_campaign_keeps ctx_done statuses page_size listed pages (suc page) r.1
                          w.0 next)
                ]
              ]
        ]
      ]

-- A listed row is a row of the table, in one of the statuses.
module _ (Q : Campaign → Type 0) (rows : Map Campaign) where
  All-rows_of :
      (ids : List String)
      → ((k : String) (c : Campaign) → contains ids k ≡ true → lookup k rows ≡ some c → Q c)
      → All Q (rows_of ids rows)
  unfolding rows_of
  All-rows_of [] h = tt
  All-rows_of (id ∷ ids) h =
      let rest = All-rows_of ids (λ k c m. h k c (ground arith)) in
      elim (Option-cases (lookup id rows)) [
        | inl e ↦
            (let same : rows_of ids rows ≡ rows_of (id ∷ ids) rows = ground arith in
              subst (All Q) same rest)
        | inr (c, e) ↦
            let same : c ∷ rows_of ids rows ≡ rows_of (id ∷ ids) rows = ground arith in
            subst (All Q) same (h id c (ground (arith, eq_iff id id)) e, rest)
      ]

contains-take :
    (k : String) (n : ℕ) (xs : List String) → contains (take n xs) k ≡ true → contains xs k ≡ true
contains-take k zero xs h = absurd (ground arith)
contains-take k (suc n) [] h = absurd (ground arith)
contains-take k (suc n) (x ∷ xs) h = ground (arith, contains-take k n xs)

pub list_by_status-All :
    (Q : Campaign → Type 0) (statuses : List CampaignStatus) (page_size : ℕ) (cursor : String)
    (t : Tenant) (r : List Campaign × String)
    → list_by_status statuses cursor page_size t ≡ ok r
    → ((k : String) (c : Campaign)
        → contains (listed_ids statuses cursor t.campaigns) k ≡ true
        → lookup k t.campaigns ≡ some c
        → Q c)
    → All Q r.0
unfolding list_by_status
list_by_status-All Q statuses page_size cursor t r h q =
    let ids = listed_ids statuses cursor t.campaigns in
    let n = page_limit page_size in
    elim (Bool-cases (ltb n (length ids))) [
      | inl long ↦
          let same : rows_of (take n ids) t.campaigns ≡ r.0 = ground arith in
          subst (All Q) same
            (All-rows_of Q t.campaigns (take n ids) (λ k c m. q k c (contains-take k n ids m)))
      | inr short ↦
          let same : rows_of ids t.campaigns ≡ r.0 = ground arith in
          subst (All Q) same (All-rows_of Q t.campaigns ids q)
    ]
