-- ===== src/Control/Chunks.antt =====
-- The work that is done in chunks comes to an end: a retry requeues every row that its filter selects.
use Prim.Native.Nat.{min}
use sendplane.Common.{
  ℕ, ◌+◌, ◌-◌, ◌≤◌, ◌<◌, String, ◌≡◌, sym, subst, Bool, true, false, arith, IsMap, keys-adjust_all,
  count,
}
use sendplane.Store.Errors.{Result, ok}
use sendplane.Store.Time.{truncate_time}
use sendplane.Store.Delivery.{Delivery, RetryFilter}
use sendplane.Memstore.{TenantData}
use sendplane.Memstore.Deliveries.Bulk.{chosen, change_chosen, requeue_matches, requeued}
use sendplane.Memstore.Deliveries.Progress.{remaining, remaining-change_chosen, change_chosen-count}
use sendplane.Control.Retry.{retry_chunks}

module _ (p : String → Delivery → Bool) (f : Delivery → Delivery)
    (done : (j : String) (d : Delivery) → p j (f d) ≡ false) (limit : ℕ)
    (positive : 0 < limit) where
  -- One chunk takes as many rows as there are, up to the limit.
  pub chunk_lem :
      (s : TenantData)
      → IsMap s.deliveries
      → let r = change_chosen p limit f s in
        (r.1 ≡ min limit (remaining p s.deliveries))
        × (remaining p r.0.deliveries ≡ remaining p s.deliveries - limit)
  chunk_lem s m =
      ground (arith, change_chosen-count p limit f s, remaining-change_chosen p f done limit s m)

  pub chunk-IsMap :
      (s : TenantData) → IsMap s.deliveries → IsMap (change_chosen p limit f s).0.deliveries
  unfolding change_chosen
  chunk-IsMap s m k =
      subst (λ ks. count k ks ≤ 1)
        (sym (keys-adjust_all (chosen p limit s.deliveries) f s.deliveries)) (m k)

-- One requeue of the loop.
abbrev requeue_chunk : RetryFilter → ℕ → TenantData → TenantData × ℕ
requeue_chunk f chunk s = change_chosen (requeue_matches f) chunk (requeued (truncate_time f.now)) s

abbrev after_chunk : ℕ → RetryFilter → ℕ → ℕ → TenantData × ℕ → Bool → Result (TenantData × ℕ)
after_chunk i f chunk total r last = elim last [
  | true ↦ ok (r.0, total + r.1)
  | false ↦ retry_chunks i f chunk (total + r.1) r.0
]
