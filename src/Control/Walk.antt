-- ===== src/Control/Walk.antt =====
-- internal/control/loops.go: `eachCampaign`, the walk over the campaigns in some statuses, page by
-- page, and the ticks of internal/control/campaign_loops.go that are such walks.
use sendplane.Common.{
  ℕ, zero, suc, String, Bool, true, false, List, [], ◌∷◌, Option, none, some, str_eq,
}
use sendplane.Store.Enums.{CampaignStatus}
use sendplane.Store.Errors.{ok, err}
use sendplane.Store.Time.{Time}
use sendplane.Store.Campaign.{Campaign}
use sendplane.Memstore.Tenant.{Tenant}
use sendplane.Memstore.Campaigns.{list_by_status}
use sendplane.Control.Campaign.{
  Outcome, done, refused, ControlError, err_store, err_context, CampaignPayload,
}
use sendplane.Control.Loops.{schedule_one, cancel_one}

pub data WalkEnd : Type 0 where
  finished out_of_fuel : WalkEnd
  failed : ControlError → WalkEnd

-- What the work on a campaign leaves, and its error.
abbrev pub Worked : Type 0
Worked = Tenant × Option ControlError

module _ (fn : Campaign → Tenant → Worked) where
  -- The loop over the items of a page, up to an error.
  unfoldable pub walk_items : List Campaign → Tenant → Worked
  walk_items [] s = (s, none)
  walk_items (c ∷ cs) s =
      let w = fn c s in elim w.1 [ some e ↦ (w.0, some e) | none ↦ walk_items cs w.0 ]

  -- eachCampaign, with the number of pages that are left. `ctx_done i` tells whether the context is
  -- done before the page `i`.
  module _ (ctx_done : ℕ → Bool) (statuses : List CampaignStatus) (page_size : ℕ) where
    unfoldable pub each_campaign : ℕ → ℕ → String → Tenant → Tenant × WalkEnd
    each_campaign zero page cursor s = (s, out_of_fuel)
    each_campaign (suc pages) page cursor s = elim (ctx_done page) [
      | true ↦ (s, failed err_context)
      | false ↦ elim (list_by_status statuses cursor page_size s) [
        | err e ↦ (s, failed (err_store e))
        | ok res ↦
            let w = walk_items res.0 s in
            elim w.1 [
              | some e ↦ (w.0, failed e)
              | none ↦ elim (str_eq res.1 "") [
                | true ↦ (w.0, finished)
                | false ↦ each_campaign pages (suc page) res.1 w.0
              ]
            ]
      ]
    ]

-- An error leaves the data as they were.
abbrev pub worked : Tenant → Outcome Tenant → Worked
worked s (done t) = (t, none)
worked s (refused e) = (s, some e)

-- `clock id` is the provider's reading while the campaign `id` is worked on.
unfoldable pub scheduler_tick :
    (CampaignPayload → String)
    → (ℕ → Bool)
    → ℕ
    → ℕ
    → Time
    → (String → Time)
    → Tenant
    → Tenant × WalkEnd
scheduler_tick marshal ctx_done page_size pages now clock s =
    each_campaign (λ c t. worked t (schedule_one marshal c now (clock c.id) t)) ctx_done
      (CampaignStatus.scheduled ∷ []) page_size pages 0 "" s

unfoldable pub canceller_tick : (ℕ → Bool) → ℕ → ℕ → ℕ → (String → Time) → Tenant → Tenant × WalkEnd
canceller_tick ctx_done page_size chunk pages clock s =
    each_campaign (λ c t. worked t (cancel_one chunk c (clock c.id) t)) ctx_done
      (CampaignStatus.cancelled ∷ []) page_size pages 0 "" s
