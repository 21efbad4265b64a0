-- ===== src/Control/Expiry.antt =====
-- internal/control/maintenance.go: what the retention does to the suppressed addresses.
use sendplane.Common.{
  ℕ, zero, suc, ◌-◌, ◌*◌, ◌≤◌, ℤ, pos, negsuc, String, ◌≡◌, refl, sym, ap, subst, ◌∙◌, inl, inr,
  ◌⊎◌, Bool, true, false, none, some, arith, Map, IsMap, lookup, contains, Bool-cases, Option-cases,
  picked, passes_of_picked,
}
use sendplane.Store.Errors.{Result, ok, err}
use sendplane.Store.Time.{Time, truncate_time, truncate_time_mono}
use sendplane.Memstore.{TenantData}
use sendplane.Memstore.Aged.{drop_keys, aged_keys}
use sendplane.Memstore.Dropped.{lookup-drop_keys, drop_keys-IsMap}
use sendplane.Memstore.Suppressions.{
  Suppression, has_expired, delete_expired, in_force, is_suppressed,
}
use sendplane.Control.Kept.{delete_chunks_keep}
use sendplane.Control.Maintenance.{
  chunked_delete, RetentionConfig, RetainedRows, delete_expired_suppressions, delete_others,
  delete_tenant_wide, retain_from, retention_tick, day, delete_campaign_deliveries,
}

-- Expired is expired at any later time.
expired_not_in_force :
    (now later : Time) (v : Suppression)
    → now ≤ later
    → has_expired (truncate_time now) v ≡ true
    → in_force later v ≡ false
unfolding has_expired in_force
expired_not_in_force now later v le h = ground (arith, truncate_time_mono now later le)

module _ (now : Time) (k : String) (start : Map Suppression) where
  -- The entry of `k` is as at the start, or it had expired and is gone.
  record IsPruned (rows : Map Suppression) : Type 0 where
    once : IsMap rows
    entry :
        (lookup k rows ≡ lookup k start)
        ⊎ ((v : Suppression) × (lookup k start ≡ some v)
            × (has_expired (truncate_time now) v ≡ true)
            × (lookup k rows ≡ none))

  chunk-IsPruned :
      (limit : ℕ) (s : TenantData) (rows : Map Suppression) (r : Map Suppression × ℕ)
      → delete_expired now limit s rows ≡ ok r
      → IsPruned rows
      → IsPruned r.0
  unfolding delete_expired aged_keys
  chunk-IsPruned limit s rows r e h =
      let p = λ (i : String) (v : Suppression). has_expired (truncate_time now) v in
      let ks = picked p limit rows in
      let same : drop_keys ks rows ≡ r.0 = ground arith in
      subst IsPruned same (record {
        once = drop_keys-IsMap ks rows h.once;
        entry = elim (Bool-cases (contains ks k)) [
          | inr out ↦
              let stay : lookup k (drop_keys ks rows) ≡ lookup k rows =
                ground (arith, lookup-drop_keys ks k rows) in
              elim h.entry [ inl x ↦ inl (stay ∙ x) | inr (v, a, b, c) ↦ inr (v, a, b, stay ∙ c) ]
          | inl hit ↦
              let gone : lookup k (drop_keys ks rows) ≡ none =
                ground (arith, lookup-drop_keys ks k rows) in
              let passed = passes_of_picked p limit rows k (h.once k) hit in
              elim h.entry [
                | inl x ↦ elim (Option-cases (lookup k rows)) [
                  | inl y ↦ absurd (ground arith)
                  | inr (v, y) ↦ inr (v, sym x ∙ y, ground arith, gone)
                ]
                | inr (v, a, b, c) ↦ absurd (ground arith)
              ]
        ];
      })

  IsPruned-answer :
      (later : Time) (t : TenantData) (rows : Map Suppression)
      → now ≤ later
      → IsPruned rows
      → is_suppressed k later t rows ≡ is_suppressed k later t start
  unfolding is_suppressed
  IsPruned-answer later t rows le h = elim h.entry [
    | inl x ↦ ground arith
    | inr (v, a, b, c) ↦ ground (arith, expired_not_in_force now later v le b)
  ]

  IsPruned-start : IsMap start → IsPruned start
  IsPruned-start m = record { once = m; entry = inl refl }

  delete_expired_suppressions-IsPruned :
      (cfg : RetentionConfig) (page_done : ℕ → Bool) (chunk_done : String → ℕ → Bool)
      (s : TenantData)
      → IsMap start
      → IsPruned (delete_expired_suppressions cfg page_done chunk_done now s start).0
  unfolding delete_expired_suppressions chunked_delete
  delete_expired_suppressions-IsPruned cfg page_done chunk_done s m =
      delete_chunks_keep IsPruned (chunk_done "suppressions")
        (delete_expired now cfg.retention_chunk s) cfg.retention_chunk
        (λ rows r e h. chunk-IsPruned cfg.retention_chunk s rows r e h) cfg.retention_max_chunks 0 0
        start (IsPruned-start m)

module _ (cfg : RetentionConfig) (page_done : ℕ → Bool) (chunk_done : String → ℕ → Bool) where
  -- The list is left alone, or one chunked deletion works on it.
  abbrev OnList : Time → RetainedRows → RetainedRows → Type 0
  OnList now s t =
      (s.suppressions ≡ t.suppressions)
      ⊎ ((base : TenantData) × ((delete_expired_suppressions cfg page_done chunk_done now base
              s.suppressions).0
            ≡ t.suppressions))

  tenant_wide-suppressions :
      (cutoff : Time) (s : RetainedRows)
      → s.suppressions ≡ (delete_tenant_wide cfg page_done chunk_done cutoff s).0.suppressions
  unfolding delete_tenant_wide
  tenant_wide-suppressions cutoff s = ground arith

  others-OnList :
      (now cutoff : Time) (s : RetainedRows)
      → OnList now s (delete_others cfg page_done chunk_done now cutoff s).0
  unfolding delete_others
  others-OnList now cutoff s =
      let su =
        delete_expired_suppressions cfg page_done chunk_done now s.tenant.base s.suppressions in
      let listed : RetainedRows = record s { suppressions = su.0 } in
      inr (s.tenant.base, ground (arith, tenant_wide-suppressions cutoff listed))

  retain_from-OnList :
      (pages : ℕ) (now cutoff : Time) (s : RetainedRows)
      → OnList now s (retain_from cfg page_done chunk_done pages now cutoff s).0
  unfolding retain_from
  retain_from-OnList pages now cutoff s =
      let rows : RetainedRows = record s {
        tenant = (delete_campaign_deliveries cfg page_done chunk_done pages cutoff s.tenant).0;
      } in
      let after = (retain_from cfg page_done chunk_done pages now cutoff s).0.suppressions in
      let cases : (s.suppressions ≡ after)
          ⊎ ((delete_others cfg page_done chunk_done now cutoff rows).0.suppressions ≡ after) =
        ground arith in
      elim cases [
        | inl e ↦ inl e
        | inr e ↦ elim (others-OnList now cutoff rows) [
          | inl x ↦ inl (x ∙ e)
          | inr (base, x) ↦ inr (base, x ∙ e)
        ]
      ]

  tick-OnList :
      (days : Result ℤ) (pages : ℕ) (now : Time) (s : RetainedRows)
      → OnList now s (retention_tick cfg page_done chunk_done days pages now s).0
  unfolding retention_tick
  tick-OnList (err e) pages now s = inl refl
  tick-OnList (ok (negsuc n)) pages now s = inl refl
  tick-OnList (ok (pos zero)) pages now s = inl refl
  tick-OnList (ok (pos (suc n))) pages now s = retain_from-OnList pages now (now - suc n * day) s

  -- A tick of the retention drops entries from the list of suppressed addresses, but never changes what
  -- the list answers: at its time and at any later one an address is suppressed after the tick, however
  -- it ended, exactly if it would be without it. An entry that does not expire is never lost.
  pub retention_keeps_answers :
      (days : Result ℤ) (pages : ℕ) (now later : Time) (s : RetainedRows) (k : String)
      (t : TenantData)
      → IsMap s.suppressions
      → now ≤ later
      → is_suppressed k later t
          (retention_tick cfg page_done chunk_done days pages now s).0.suppressions
        ≡ is_suppressed k later t s.suppressions
  retention_keeps_answers days pages now later s k t m le = elim (tick-OnList days pages now s) [
    | inl e ↦ ap (is_suppressed k later t) (sym e)
    | inr (base, e) ↦
        ap (is_suppressed k later t) (sym e)
        ∙ IsPruned-answer now k s.suppressions later t
            (delete_expired_suppressions cfg page_done chunk_done now base s.suppressions).0 le
            (delete_expired_suppressions-IsPruned now k s.suppressions cfg page_done chunk_done base
              m)
  ]

  pub tick-IsMap :
      (days : Result ℤ) (pages : ℕ) (now : Time) (s : RetainedRows)
      → IsMap s.suppressions
      → IsMap (retention_tick cfg page_done chunk_done days pages now s).0.suppressions
  tick-IsMap days pages now s m = elim (tick-OnList days pages now s) [
    | inl e ↦ subst IsMap e m
    | inr (base, e) ↦
        subst IsMap e
          (delete_expired_suppressions-IsPruned now "" s.suppressions cfg page_done chunk_done base
            m).once
  ]
