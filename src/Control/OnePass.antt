-- ===== src/Control/OnePass.antt =====
-- internal/control/loops.go: `eachCampaign` works on each listed campaign once, and comes to an end.
use sendplane.Common.{
  ℕ, zero, suc, ◌<◌, String, ◌≡◌, refl, ap, ◌∙◌, inl, inr, Bool, true, false, List, ◌∷◌, ◌++◌, none,
  some, str_eq, eq_iff, arith, ltb, IsMap, str_lt-nil, length, take, last_of, Bool-cases,
  Option-cases,
}
use sendplane.Store.Enums.{CampaignStatus}
use sendplane.Store.Errors.{ok}
use sendplane.Store.Campaign.{Campaign}
use sendplane.Memstore.Tenant.{Tenant}
use sendplane.Memstore.Campaigns.{rows_of, listed_ids, page_limit, list_by_status}
use sendplane.Control.Walk.{WalkEnd, finished, failed, Worked, walk_items, each_campaign}
use sendplane.Control.Paging.{
  IsLocal, IsKeyed, rows_of-append, prefix, walk_items-append, walk_items-IsKept, after_cursor,
  length-listed_rest, rows_rest, IsKeyed-rest, IsKeyed-prefix,
}

-- How a walk ends after the work on its last item.
abbrev pub ended : Worked → Tenant × WalkEnd
ended (t, none) = (t, finished)
ended (t, some e) = (t, failed e)

page_limit_positive : (n : ℕ) → 0 < page_limit n
unfolding page_limit
page_limit_positive n = ground arith

ended_lem : (w : Worked) → ended w ≡ elim w.1 [ some e ↦ (w.0, failed e) | none ↦ (w.0, finished) ]
ended_lem (t, none) = refl
ended_lem (t, some e) = refl

list_last :
    (statuses : List CampaignStatus) (page_size : ℕ) (cursor : String) (s : Tenant)
    → s.base.closed ≡ false
    → ltb (page_limit page_size) (length (listed_ids statuses cursor s.campaigns)) ≡ false
    → list_by_status statuses cursor page_size s
      ≡ ok (rows_of (listed_ids statuses cursor s.campaigns) s.campaigns, "")
unfolding list_by_status
list_last statuses page_size cursor s opened short = ground arith

-- The pass over the whole listing, at the end of the first page.
split_pass :
    (fn : Campaign → Tenant → Worked) (x : String) (ys zs ids : List String) (s : Tenant)
    → ids ≡ x ∷ ys ++ zs
    → walk_items fn (rows_of ids s.campaigns) s ≡ (
        let w = walk_items fn (rows_of (x ∷ ys) s.campaigns) s in
        elim w.1 [ some e ↦ (w.0, some e) | none ↦ walk_items fn (rows_of zs s.campaigns) w.0 ])
split_pass fn x ys zs ids s f =
    ap (λ l. walk_items fn (rows_of l s.campaigns) s) f
    ∙ ap (λ l. walk_items fn l s) (rows_of-append (x ∷ ys) zs s.campaigns)
    ∙ walk_items-append fn (rows_of (x ∷ ys) s.campaigns) (rows_of zs s.campaigns) s

module _ (fn : Campaign → Tenant → Worked) (ctx_done : ℕ → Bool) (statuses : List CampaignStatus)
    (page_size : ℕ) where
  last_page :
      (pages page : ℕ) (cursor : String) (s : Tenant)
      → ctx_done page ≡ false
      → s.base.closed ≡ false
      → ltb (page_limit page_size) (length (listed_ids statuses cursor s.campaigns)) ≡ false
      → each_campaign fn ctx_done statuses page_size (suc pages) page cursor s
        ≡ ended (walk_items fn (rows_of (listed_ids statuses cursor s.campaigns) s.campaigns) s)
  unfolding each_campaign
  last_page pages page cursor s live opened short = ground (
    arith,
    list_last statuses page_size cursor s opened short,
    ended_lem (walk_items fn (rows_of (listed_ids statuses cursor s.campaigns) s.campaigns) s),
  )

  first_page :
      (pages page : ℕ) (cursor : String) (s : Tenant) (x : String) (ys : List String)
      → ctx_done page ≡ false
      → s.base.closed ≡ false
      → ltb (page_limit page_size) (length (listed_ids statuses cursor s.campaigns)) ≡ true
      → take (page_limit page_size) (listed_ids statuses cursor s.campaigns) ≡ x ∷ ys
      → str_eq (last_of x ys) "" ≡ false
      → each_campaign fn ctx_done statuses page_size (suc pages) page cursor s ≡ (
          let w = walk_items fn (rows_of (x ∷ ys) s.campaigns) s in
          elim w.1 [
            | some e ↦ (w.0, failed e)
            | none ↦
                each_campaign fn ctx_done statuses page_size pages (suc page) (last_of x ys) w.0
          ])
  unfolding each_campaign list_by_status
  first_page pages page cursor s x ys live opened long e named = ground arith

  module _ (local : IsLocal fn) (live : (i : ℕ) → ctx_done i ≡ false) where
    -- The walk goes page by page, and lists each page anew from the table that the work on the
    -- earlier pages has changed. Yet, when the work on a campaign touches no other campaign's row,
    -- it is one pass in order over the campaigns that the first page's moment lists: none is left
    -- out, none is worked on twice, and the walk ends when the pass does or at its first error. One
    -- page more than there are campaigns listed is enough.
    pub each_campaign_is_one_pass :
        (pages page : ℕ) (cursor : String) (s : Tenant)
        → s.base.closed ≡ false
        → IsMap s.campaigns
        → IsKeyed (listed_ids statuses cursor s.campaigns) s.campaigns
        → length (listed_ids statuses cursor s.campaigns) < pages
        → each_campaign fn ctx_done statuses page_size pages page cursor s
          ≡ ended (walk_items fn (rows_of (listed_ids statuses cursor s.campaigns) s.campaigns) s)
    each_campaign_is_one_pass zero page cursor s opened m keyed enough = absurd (omega arith)
    each_campaign_is_one_pass (suc pages) page cursor s opened m keyed enough =
        let ids = listed_ids statuses cursor s.campaigns in
        let n = page_limit page_size in
        elim (Bool-cases (ltb n (length ids))) [
          | inr short ↦ last_page pages page cursor s (live page) opened short
          | inl long ↦
              let (x, ys, zs, e, f, l) =
                prefix n ids (page_limit_positive page_size) (ground arith) in
              let w = walk_items fn (rows_of (x ∷ ys) s.campaigns) s in
              let kept =
                walk_items-IsKept fn local (x ∷ ys) s.campaigns s
                  (IsKeyed-prefix (x ∷ ys) zs ids s.campaigns f keyed) in
              let pass = split_pass fn x ys zs ids s f in
              let start = first_page pages page cursor s x ys (live page) opened long e (
                ground (
                  arith,
                  after_cursor statuses cursor s w.0 m x ys zs f kept,
                  str_lt-nil cursor,
                  eq_iff (last_of x ys) "",
                )) in
              elim (Option-cases w.1) [
                | inr (x', h) ↦ ground arith
                | inl h ↦
                    let next =
                      each_campaign_is_one_pass pages (suc page) (last_of x ys) w.0
                        (kept.opened ∙ opened) (kept.mapped m)
                        (IsKeyed-rest statuses cursor s w.0 m x ys zs f kept keyed)
                        (omega
                          (arith, length-listed_rest statuses cursor s w.0 m x ys zs f kept)) in
                    let same = rows_rest statuses cursor s w.0 m x ys zs f kept in
                    let pass' = ap (λ l. ended (walk_items fn l w.0)) same in ground arith
              ]
        ]
