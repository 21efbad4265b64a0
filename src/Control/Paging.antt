-- ===== src/Control/Paging.antt =====
-- internal/control/loops.go: the pages of `eachCampaign` are one pass over the campaigns.
use sendplane.Common.{
  ℕ, zero, suc, ◌<◌, ◌≤◌, String, ◌≡◌, refl, sym, ap, subst, ◌∙◌, inl, inr, true, false, ◌&&◌, List,
  [], ◌∷◌, ◌++◌, none, some, eq_iff, arith, str_lt, Map, IsMap, keys, lookup, matching, count,
  contains, contains-count, length, take, IsStrict, last_of, IsStrict-ext, IsStrict-of_sorted,
  contains_after, contains-append, contains-last_of, not_after_last, IsStrict-suffix, str_lt_trans,
  str_lt_asym, sort_strings, contains-matching, count-sort, count-keys-matching-le, sort-IsSorted,
  not_str_lt_trans, Bool-cases, Option-cases,
}
use sendplane.Store.Enums.{CampaignStatus}
use sendplane.Store.Campaign.{Campaign}
use sendplane.Memstore.Tenant.{Tenant}
use sendplane.Memstore.Campaigns.{has_status, rows_of, listed_ids}
use sendplane.Control.Walk.{Worked, walk_items}

-- ---- The listing

pub count-listed_ids-le_one :
    (statuses : List CampaignStatus) (cursor : String) (rows : Map Campaign) (k : String)
    → IsMap rows
    → count k (listed_ids statuses cursor rows) ≤ 1
unfolding listed_ids
count-listed_ids-le_one statuses cursor rows k m =
    let p = λ (id : String) (c : Campaign). str_lt cursor id && has_status statuses c in
    omega
      (arith, m k, count-sort str_lt k (keys (matching p rows)), count-keys-matching-le p k rows)

listed_ids-IsStrict :
    (statuses : List CampaignStatus) (cursor : String) (rows : Map Campaign)
    → IsMap rows
    → IsStrict (listed_ids statuses cursor rows)
unfolding listed_ids
listed_ids-IsStrict statuses cursor rows m =
    let p = λ (id : String) (c : Campaign). str_lt cursor id && has_status statuses c in
    IsStrict-of_sorted (listed_ids statuses cursor rows)
      (sort-IsSorted str_lt str_lt_asym not_str_lt_trans (keys (matching p rows)))
      (λ k. count-listed_ids-le_one statuses cursor rows k m)

pub contains-listed_ids :
    (statuses : List CampaignStatus) (cursor : String) (rows : Map Campaign) (k : String)
    → IsMap rows
    → contains (listed_ids statuses cursor rows) k
      ≡ elim (lookup k rows) [ none ↦ false | some c ↦ str_lt cursor k && has_status statuses c ]
unfolding listed_ids
contains-listed_ids statuses cursor rows k m =
    let p = λ (id : String) (c : Campaign). str_lt cursor id && has_status statuses c in
    ground (
      arith,
      contains-count (sort_strings (keys (matching p rows))) k,
      contains-count (keys (matching p rows)) k,
      count-sort str_lt k (keys (matching p rows)),
      contains-matching p k rows (m k),
    )

pub rows_of-append :
    (ids more : List String) (rows : Map Campaign)
    → rows_of (ids ++ more) rows ≡ rows_of ids rows ++ rows_of more rows
unfolding rows_of
rows_of-append [] more rows = refl
rows_of-append (id ∷ ids) more rows = ground (arith, rows_of-append ids more rows)

-- Rows that are the same are listed the same.
same_rows_of :
    (ids : List String) (rows later : Map Campaign)
    → ((k : String) → contains ids k ≡ true → lookup k later ≡ lookup k rows)
    → rows_of ids later ≡ rows_of ids rows
unfolding rows_of
same_rows_of [] rows later h = refl
same_rows_of (id ∷ ids) rows later h =
    let rest = same_rows_of ids rows later (λ k c. h k (ground arith)) in
    ground (arith, h id, eq_iff id id)

pub prefix :
    (n : ℕ) (xs : List String)
    → 0 < n
    → n < length xs
    → (x : String) × (ys zs : List String) × (take n xs ≡ x ∷ ys)
      × (xs ≡ x ∷ ys ++ zs)
      × (length zs < length xs)
prefix zero xs h k = absurd (omega arith)
prefix (suc n) [] h k = absurd (omega arith)
prefix (suc zero) (x ∷ xs) h k = (x, [], xs, refl, refl, omega arith)
prefix (suc (suc n)) (x ∷ xs) h k =
    let (y, ys, zs, e, f, l) = prefix (suc n) xs (omega arith) (omega arith) in
    (x, y ∷ ys, zs, ap (λ l. x ∷ l) e, ap (λ l. x ∷ l) f, omega arith)

-- ---- The work on the items

-- What the work on `ids` does not touch.
pub record IsKept (ids : List String) (s t : Tenant) : Type 0 where
  pub row : (k : String) → contains ids k ≡ false → lookup k t.campaigns ≡ lookup k s.campaigns
  pub opened : t.base.closed ≡ s.base.closed
  pub mapped : IsMap s.campaigns → IsMap t.campaigns

-- The work on a campaign changes no row but that campaign's, and adds none twice.
abbrev pub IsLocal : (Campaign → Tenant → Worked) → Type 0
IsLocal fn = (c : Campaign) (s : Tenant) → IsKept (c.id ∷ []) s (fn c s).0

-- The listed rows stand under their identifiers.
abbrev pub IsKeyed : List String → Map Campaign → Type 0
IsKeyed ids rows =
    (k : String) (c : Campaign) → contains ids k ≡ true → lookup k rows ≡ some c → c.id ≡ k

IsKept-trans :
    (id : String) (ids : List String) (s t u : Tenant)
    → IsKept (id ∷ []) s t
    → IsKept ids t u
    → IsKept (id ∷ ids) s u
IsKept-trans id ids s t u a b = record {
  row = λ k h. ground (arith, a.row k, b.row k);
  opened = b.opened ∙ a.opened;
  mapped = λ m. b.mapped (a.mapped m);
}

IsKept-refl : (ids : List String) (s : Tenant) → IsKept ids s s
IsKept-refl ids s = record { row = λ k h. refl; opened = refl; mapped = λ m. m }

IsKept-weaken :
    (ids more : List String) (s t : Tenant)
    → ((k : String) → contains more k ≡ false → contains ids k ≡ false)
    → IsKept ids s t
    → IsKept more s t
IsKept-weaken ids more s t w a = record {
  row = λ k h. a.row k (w k h);
  opened = a.opened;
  mapped = a.mapped;
}

module _ (fn : Campaign → Tenant → Worked) where
  pub walk_items-append :
      (cs ds : List Campaign) (s : Tenant)
      → walk_items fn (cs ++ ds) s ≡ (
          let w = walk_items fn cs s in
          elim w.1 [ some e ↦ (w.0, some e) | none ↦ walk_items fn ds w.0 ])
  unfolding walk_items
  walk_items-append [] ds s = refl
  walk_items-append (c ∷ cs) ds s = ground (arith, walk_items-append cs ds (fn c s).0)

module _ (fn : Campaign → Tenant → Worked) (local : IsLocal fn) where
  pub walk_items-IsKept :
      (ids : List String) (rows : Map Campaign) (s : Tenant)
      → IsKeyed ids rows
      → IsKept ids s (walk_items fn (rows_of ids rows) s).0
  unfolding walk_items rows_of
  walk_items-IsKept [] rows s keyed = IsKept-refl [] s
  walk_items-IsKept (id ∷ ids) rows s keyed =
      let rest =
        λ (t : Tenant). walk_items-IsKept ids rows t (λ k c h at. keyed k c (ground arith) at) in
      elim (Option-cases (lookup id rows)) [
        | inl e ↦
            let step : walk_items fn (rows_of ids rows) s
                ≡ walk_items fn (rows_of (id ∷ ids) rows) s =
              ground arith in
            subst (λ (w : Worked). IsKept (id ∷ ids) s w.0) step
              (IsKept-weaken ids (id ∷ ids) s (walk_items fn (rows_of ids rows) s).0
                (λ k h. ground arith) (rest s))
        | inr (c, e) ↦
            let same = keyed id c (ground (arith, eq_iff id id)) e in
            let own = subst (λ (x : String). IsKept (x ∷ []) s (fn c s).0) same (local c s) in
            elim (Option-cases (fn c s).1) [
              | inl f ↦
                  let step : walk_items fn (rows_of ids rows) (fn c s).0
                      ≡ walk_items fn (rows_of (id ∷ ids) rows) s =
                    ground arith in
                  subst (λ (w : Worked). IsKept (id ∷ ids) s w.0) step
                    (IsKept-trans id ids s (fn c s).0
                      (walk_items fn (rows_of ids rows) (fn c s).0).0 own (rest (fn c s).0))
              | inr (x, f) ↦
                  let step : (fn c s).0 ≡ (walk_items fn (rows_of (id ∷ ids) rows) s).0 =
                    ground arith in
                  subst (IsKept (id ∷ ids) s) step
                    (IsKept-weaken (id ∷ []) (id ∷ ids) s (fn c s).0 (λ k h. ground arith) own)
            ]
      ]

-- ---- The next page

module _ (statuses : List CampaignStatus) (cursor : String) (s t : Tenant) (m : IsMap s.campaigns)
    (x : String) (ys zs : List String)
    (listed : listed_ids statuses cursor s.campaigns ≡ x ∷ ys ++ zs)
    (kept : IsKept (x ∷ ys) s t) where
  strict : IsStrict (x ∷ ys ++ zs)
  strict = subst IsStrict listed (listed_ids-IsStrict statuses cursor s.campaigns m)

  kept_after :
      (k : String) → str_lt (last_of x ys) k ≡ true → lookup k t.campaigns ≡ lookup k s.campaigns
  kept_after k h =
      kept.row k (ground (arith, not_after_last k x ys zs strict, Bool-cases (contains (x ∷ ys) k)))

  pub after_cursor : str_lt cursor (last_of x ys) ≡ true
  after_cursor =
      let last =
        subst (λ l. contains l (last_of x ys) ≡ true) (sym listed) (contains-last_of x ys zs) in
      ground (arith, last, contains-listed_ids statuses cursor s.campaigns (last_of x ys) m)

  contains_rest :
      (k : String) → contains (listed_ids statuses (last_of x ys) t.campaigns) k ≡ contains zs k
  contains_rest k =
      let whole = ap (λ l. contains l k) listed in
      ground (
        arith,
        whole,
        contains-listed_ids statuses (last_of x ys) t.campaigns k (kept.mapped m),
        contains-listed_ids statuses cursor s.campaigns k m,
        contains_after k x ys zs strict,
        kept_after k,
        after_cursor,
        str_lt_trans cursor (last_of x ys) k,
        Bool-cases (str_lt (last_of x ys) k),
        Option-cases (lookup k t.campaigns),
      )

  -- What is listed after the page is what was listed, whatever the work on the page has done.
  listed_rest : listed_ids statuses (last_of x ys) t.campaigns ≡ zs
  listed_rest =
      IsStrict-ext (listed_ids statuses (last_of x ys) t.campaigns) zs
        (listed_ids-IsStrict statuses (last_of x ys) t.campaigns (kept.mapped m))
        (IsStrict-suffix (x ∷ ys) zs strict) contains_rest

  kept_rest : (k : String) → contains zs k ≡ true → lookup k t.campaigns ≡ lookup k s.campaigns
  kept_rest k h = kept_after k (ground (arith, contains_after k x ys zs strict))

  pub length-listed_rest : length (listed_ids statuses (last_of x ys) t.campaigns) ≡ length zs
  length-listed_rest = ap length listed_rest

  pub rows_rest :
      rows_of (listed_ids statuses (last_of x ys) t.campaigns) t.campaigns ≡ rows_of zs s.campaigns
  rows_rest =
      ap (λ l. rows_of l t.campaigns) listed_rest
      ∙ same_rows_of zs s.campaigns t.campaigns kept_rest

  pub IsKeyed-rest :
      IsKeyed (listed_ids statuses cursor s.campaigns) s.campaigns
      → IsKeyed (listed_ids statuses (last_of x ys) t.campaigns) t.campaigns
  IsKeyed-rest keyed k c h at =
      let rest = subst (λ l. contains l k ≡ true) listed_rest h in
      let within : contains (x ∷ ys ++ zs) k ≡ true =
        ground (arith, contains-append k (x ∷ ys) zs) in
      keyed k c (subst (λ l. contains l k ≡ true) (sym listed) within) (sym (kept_rest k rest) ∙ at)

pub IsKeyed-prefix :
    (xs ys : List String) (ids : List String) (rows : Map Campaign)
    → ids ≡ xs ++ ys
    → IsKeyed ids rows
    → IsKeyed xs rows
IsKeyed-prefix xs ys ids rows same keyed k c h at =
    keyed k c
      (subst (λ l. contains l k ≡ true) (sym same) (ground (arith, contains-append k xs ys))) at
