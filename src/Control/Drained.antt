-- ===== src/Control/Drained.antt =====
-- internal/control/maintenance.go: the chunks of the retention delete all that has expired.
use sendplane.Common.{
  ℕ, zero, suc, ◌+◌, ◌*◌, ◌≤◌, ◌<◌, String, ◌≡◌, refl, subst, ◌∙◌, inl, inr, Bool, false, none,
  arith, ltb, Map, IsMap, length, picked, Bool-cases,
}
use sendplane.Store.Errors.{ok}
use sendplane.Store.Time.{Time, truncate_time}
use sendplane.Memstore.{TenantData}
use sendplane.Memstore.Aged.{drop_keys, aged_keys}
use sendplane.Memstore.Dropped.{remaining, remaining-picked, drop_keys-IsMap}
use sendplane.Memstore.Suppressions.{Suppression, has_expired, delete_expired}
use sendplane.Control.Maintenance.{
  Chunked, delete_chunks, chunked_delete, RetentionConfig, delete_expired_suppressions,
}

-- The entries that have expired.
abbrev pub expired_entries : Time → Map Suppression → ℕ
expired_entries now = remaining (λ k v. has_expired (truncate_time now) v)

module _ (ctx_done : ℕ → Bool) (live : (i : ℕ) → ctx_done i ≡ false) (now : Time) (chunk : ℕ)
    (positive : 0 < chunk) (s : TenantData) (opened : s.closed ≡ false) where
  abbrev taken_chunk : Map Suppression → Map Suppression × ℕ
  taken_chunk rows =
      let ks = picked (λ k v. has_expired (truncate_time now) v) chunk rows in
      (drop_keys ks rows, length ks)

  delete_expired_lem :
      (rows : Map Suppression) → delete_expired now chunk s rows ≡ ok (taken_chunk rows)
  unfolding delete_expired aged_keys
  delete_expired_lem rows = ground arith

  -- All expired entries are deleted and counted, without an error.
  abbrev IsDrained : ℕ → Map Suppression → Chunked (Map Suppression) → Type 0
  IsDrained total rows r =
      (expired_entries now r.0 ≡ 0) × (r.1 ≡ total + expired_entries now rows) × (r.2 ≡ none)

  delete_chunks-IsDrained :
      (left i total : ℕ) (rows : Map Suppression)
      → IsMap rows
      → expired_entries now rows ≤ left * chunk
      → IsDrained total rows
          (delete_chunks ctx_done (delete_expired now chunk s) chunk left i total rows)
  unfolding delete_chunks
  delete_chunks-IsDrained zero i total rows m few = (omega arith, omega arith, refl)
  delete_chunks-IsDrained (suc left) i total rows m few =
      let p = λ (k : String) (v : Suppression). has_expired (truncate_time now) v in
      let took = remaining-picked p chunk rows m positive in
      let next = taken_chunk rows in
      let whole =
        delete_chunks ctx_done (delete_expired now chunk s) chunk (suc left) i total rows in
      elim (Bool-cases (ltb next.1 chunk)) [
        | inl short ↦
            let same : (next.0, total + next.1, none) ≡ whole =
              ground (arith, live i, delete_expired_lem rows) in
            subst (IsDrained total rows) same
              (ground (arith, took.0, took.1), ground (arith, took.0, took.1), refl)
        | inr full ↦
            let rest =
              delete_chunks ctx_done (delete_expired now chunk s) chunk left (suc i)
                (total + next.1) next.0 in
            let same : rest ≡ whole = ground (arith, live i, delete_expired_lem rows) in
            let drained =
              delete_chunks-IsDrained left (suc i) (total + next.1) next.0
                (drop_keys-IsMap (picked p chunk rows) rows m) (ground (arith, took.0, took.1)) in
            subst (IsDrained total rows) same
              (drained.0, drained.1 ∙ omega (arith, took.1), drained.2)
      ]

-- The chunks of one tick delete every expired entry, count each once and stop without an error, when
-- the chunk is positive, the store open and the context not done, and the expired entries are no more
-- than the tick's chunks can hold.
pub expired_suppressions_drain :
    (cfg : RetentionConfig) (page_done : ℕ → Bool) (chunk_done : String → ℕ → Bool) (now : Time)
    (s : TenantData) (rows : Map Suppression)
    → ((i : ℕ) → chunk_done "suppressions" i ≡ false)
    → 0 < cfg.retention_chunk
    → s.closed ≡ false
    → IsMap rows
    → expired_entries now rows ≤ cfg.retention_max_chunks * cfg.retention_chunk
    → let r = delete_expired_suppressions cfg page_done chunk_done now s rows in
      (expired_entries now r.0 ≡ 0) × (r.1 ≡ expired_entries now rows) × (r.2 ≡ none)
unfolding delete_expired_suppressions chunked_delete
expired_suppressions_drain cfg page_done chunk_done now s rows live positive opened m few =
    let (a, b, c) =
      delete_chunks-IsDrained (chunk_done "suppressions") live now cfg.retention_chunk positive s
        opened cfg.retention_max_chunks 0 0 rows m few in
    (a, omega (arith, b), c)
