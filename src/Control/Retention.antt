-- ===== src/Control/Retention.antt =====
-- internal/control/maintenance.go: what the retention leaves alone.
use sendplane.Common.{
  ℕ, suc, ◌-◌, ◌*◌, pos, String, ◌≡◌, refl, sym, ap, subst, ◌∙◌, inl, inr, ◌⊎◌, Bool, true, false,
  ◌&&◌, List, [], ◌∷◌, none, some, eq_iff, arith, Map, IsMap, lookup, All, Bool-cases,
}
use sendplane.Store.Enums.{CampaignStatus}
use sendplane.Store.Errors.{Result-cases, ok}
use sendplane.Store.Time.{Time, before, truncate_time}
use sendplane.Store.Delivery.{Delivery}
use sendplane.Store.Campaign.{Campaign}
use sendplane.Memstore.{TenantData}
use sendplane.Memstore.Tenant.{Tenant}
use sendplane.Memstore.Campaigns.{has_status, list_by_status}
use sendplane.Memstore.Outbox.{delete_events_before}
use sendplane.Memstore.Deliveries.Bulk.{delete_before, delete_rows, chosen, created_before}
use sendplane.Memstore.Deliveries.Valid.{IsValid}
use sendplane.Memstore.Deliveries.Chosen.{passes_of_chosen}
use sendplane.Memstore.Deliveries.Removal.{delete_rows-IsValid, lookup-delete_rows}
use sendplane.Control.Paging.{contains-listed_ids}
use sendplane.Control.Kept.{delete_chunks_keep, each_campaign_keeps, list_by_status-All}
use sendplane.Control.Maintenance.{
  delete_chunks, chunked_delete, on_base, RetentionConfig, RetainedRows, over_at,
  delete_campaign_rows, delete_campaign_deliveries, delete_expired_suppressions, delete_outbox,
  delete_others, delete_tenant_wide, retain_from, retention_tick, day,
}

abbrev pub over_statuses : List CampaignStatus
over_statuses = CampaignStatus.completed ∷ CampaignStatus.cancelled ∷ []

-- The campaign was over before the cutoff.
abbrev pub is_past : Time → Campaign → Bool
is_past cutoff c = has_status over_statuses c && before (over_at c) cutoff

-- The delivery is older than the cutoff, and so is the end of its campaign.
abbrev pub is_retired : Time → Map Campaign → Delivery → Bool
is_retired cutoff campaigns d =
    before d.created_at (truncate_time cutoff)
    && elim (lookup d.campaign_id campaigns) [ none ↦ false | some c ↦ is_past cutoff c ]

delete_before_spares :
    (id : String) (cutoff : Time) (limit : ℕ) (s : TenantData) (r : TenantData × ℕ) (j : String)
    (d : Delivery)
    → delete_before id cutoff limit s ≡ ok r
    → created_before id (truncate_time cutoff) j d ≡ false
    → IsValid s
    → lookup j s.deliveries ≡ some d
    → IsValid r.0 × (lookup j r.0.deliveries ≡ some d)
unfolding delete_before
delete_before_spares id cutoff limit s r j d h young v at =
    let p = created_before id (truncate_time cutoff) in
    let ids = chosen p limit s.deliveries in
    let same : delete_rows ids s ≡ r.0 = ground arith in
    (
      subst IsValid same (delete_rows-IsValid ids s v),
      ap (λ (x : TenantData). lookup j x.deliveries) (sym same)
          ∙ ground
              (arith, lookup-delete_rows ids j s, passes_of_chosen p limit s.deliveries v.rows j),
    )

module _ (cfg : RetentionConfig) (page_done : ℕ → Bool) (chunk_done : String → ℕ → Bool)
    (cutoff : Time) (campaigns : Map Campaign) (m : IsMap campaigns)
    (keyed : (k : String) (c : Campaign) → lookup k campaigns ≡ some c → c.id ≡ k) (j : String)
    (d : Delivery) (spared : is_retired cutoff campaigns d ≡ false) where
  -- The delivery stands in the data, and the campaigns are the ones of the start.
  record IsSpared (t : Tenant) : Type 0 where
    same : t.campaigns ≡ campaigns
    valid : IsValid t.base
    at : lookup j t.base.deliveries ≡ some d

  -- A campaign of the walk.
  abbrev IsListed : Campaign → Type 0
  IsListed c = (lookup c.id campaigns ≡ some c) × (has_status over_statuses c ≡ true)

  young :
      (c : Campaign)
      → lookup c.id campaigns ≡ some c
      → has_status over_statuses c ≡ true
      → before (over_at c) cutoff ≡ true
      → created_before c.id (truncate_time cutoff) j d ≡ false
  unfolding created_before
  young c row over past = ground (arith, eq_iff d.campaign_id c.id)

  chunk-IsSpared :
      (c : Campaign)
      → lookup c.id campaigns ≡ some c
      → has_status over_statuses c ≡ true
      → before (over_at c) cutoff ≡ true
      → (u : Tenant) (r : Tenant × ℕ)
      → on_base u (delete_before c.id cutoff cfg.retention_chunk u.base) ≡ ok r
      → IsSpared u
      → IsSpared r.0
  chunk-IsSpared c row over past u r e h =
      elim (Result-cases (delete_before c.id cutoff cfg.retention_chunk u.base)) [
        | inl (x, f) ↦ absurd (ground arith)
        | inr (x, f) ↦
            let next =
              delete_before_spares c.id cutoff cfg.retention_chunk u.base x j d f
                (young c row over past) h.valid h.at in
            let there : record u { base = x.0 } ≡ r.0 = ground arith in
            subst IsSpared there (record { same = h.same; valid = next.0; at = next.1 })
      ]

  delete_campaign_rows-IsSpared :
      (c : Campaign) (t : Tenant)
      → IsListed c
      → IsSpared t
      → IsSpared (delete_campaign_rows cfg page_done chunk_done cutoff c t).0
  unfolding delete_campaign_rows chunked_delete
  delete_campaign_rows-IsSpared c t (row, over) h = elim (Bool-cases (before (over_at c) cutoff)) [
    | inr late ↦
        let stay : t ≡ (delete_campaign_rows cfg page_done chunk_done cutoff c t).0 =
          ground arith in
        subst IsSpared stay h
    | inl past ↦
        let del =
          λ (u : Tenant). on_base u (delete_before c.id cutoff cfg.retention_chunk u.base) in
        let run : (delete_chunks (chunk_done c.id) del cfg.retention_chunk cfg.retention_max_chunks
              0 0 t).0
            ≡ (delete_campaign_rows cfg page_done chunk_done cutoff c t).0 =
          ground arith in
        subst IsSpared run (
          delete_chunks_keep IsSpared (chunk_done c.id) del cfg.retention_chunk
            (chunk-IsSpared c row over past) cfg.retention_max_chunks 0 0 t h)
  ]

  list_by_status-IsListed :
      (cursor : String) (t : Tenant) (r : List Campaign × String)
      → list_by_status over_statuses cursor cfg.campaign_page t ≡ ok r
      → IsSpared t
      → All IsListed r.0
  list_by_status-IsListed cursor t r l h =
      list_by_status-All IsListed over_statuses cfg.campaign_page cursor t r l (λ k c in_list row.
        let row' : lookup k campaigns ≡ some c = ap (lookup k) (sym h.same) ∙ row in
        let once = subst IsMap (sym h.same) m in
        (
          ap (λ x. lookup x campaigns) (keyed k c row') ∙ row',
          ground (arith, contains-listed_ids over_statuses cursor t.campaigns k once),
        ))

  delete_campaign_deliveries-IsSpared :
      (pages : ℕ) (t : Tenant)
      → IsSpared t
      → IsSpared (delete_campaign_deliveries cfg page_done chunk_done pages cutoff t).0
  unfolding delete_campaign_deliveries
  delete_campaign_deliveries-IsSpared pages t h =
      each_campaign_keeps (delete_campaign_rows cfg page_done chunk_done cutoff) IsSpared IsListed
        delete_campaign_rows-IsSpared page_done over_statuses cfg.campaign_page
        list_by_status-IsListed pages 0 "" t h

  event_chunk-IsSpared :
      (u : Tenant) (r : Tenant × ℕ)
      → delete_events_before cutoff cfg.retention_chunk u ≡ ok r
      → IsSpared u
      → IsSpared r.0
  unfolding delete_events_before
  event_chunk-IsSpared u r e h =
      let base : u.base ≡ r.0.base = ground arith in
      let rows : r.0.campaigns ≡ u.campaigns = ground arith in
      record {
        same = rows ∙ h.same;
        valid = subst IsValid base h.valid;
        at = ap (λ (x : TenantData). lookup j x.deliveries) (sym base) ∙ h.at;
      }

  delete_outbox-IsSpared :
      (t : Tenant) → IsSpared t → IsSpared (delete_outbox cfg page_done chunk_done cutoff t).0
  unfolding delete_outbox chunked_delete
  delete_outbox-IsSpared t h =
      delete_chunks_keep IsSpared (chunk_done "outbox events")
        (delete_events_before cutoff cfg.retention_chunk) cfg.retention_chunk
        (λ u r e k. event_chunk-IsSpared u r e k) cfg.retention_max_chunks 0 0 t h

  tenant_wide-IsSpared :
      (s : RetainedRows)
      → IsSpared s.tenant
      → IsSpared (delete_tenant_wide cfg page_done chunk_done cutoff s).0.tenant
  unfolding delete_tenant_wide
  tenant_wide-IsSpared s h =
      let after = (delete_tenant_wide cfg page_done chunk_done cutoff s).0.tenant in
      let cases : (s.tenant ≡ after)
          ⊎ ((delete_outbox cfg page_done chunk_done cutoff s.tenant).0 ≡ after) =
        ground arith in
      elim cases [
        | inl e ↦ subst IsSpared e h
        | inr e ↦ subst IsSpared e (delete_outbox-IsSpared s.tenant h)
      ]

  others-IsSpared :
      (now : Time) (s : RetainedRows)
      → IsSpared s.tenant
      → IsSpared (delete_others cfg page_done chunk_done now cutoff s).0.tenant
  unfolding delete_others
  others-IsSpared now s h =
      let after = (delete_others cfg page_done chunk_done now cutoff s).0.tenant in
      let listed : RetainedRows = record s {
        suppressions =
            (delete_expired_suppressions cfg page_done chunk_done now s.tenant.base
              s.suppressions).0;
      } in
      let cases : (s.tenant ≡ after)
          ⊎ ((delete_tenant_wide cfg page_done chunk_done cutoff listed).0.tenant ≡ after) =
        ground arith in
      elim cases [
        | inl e ↦ subst IsSpared e h
        | inr e ↦ subst IsSpared e (tenant_wide-IsSpared listed h)
      ]

  retain_from-IsSpared :
      (pages : ℕ) (now : Time) (s : RetainedRows)
      → IsSpared s.tenant
      → IsSpared (retain_from cfg page_done chunk_done pages now cutoff s).0.tenant
  unfolding retain_from
  retain_from-IsSpared pages now s h =
      let walked = (delete_campaign_deliveries cfg page_done chunk_done pages cutoff s.tenant).0 in
      let kept = delete_campaign_deliveries-IsSpared pages s.tenant h in
      let rows : RetainedRows = record s { tenant = walked } in
      let after = (retain_from cfg page_done chunk_done pages now cutoff s).0.tenant in
      let cases : (walked ≡ after)
          ⊎ ((delete_others cfg page_done chunk_done now cutoff rows).0.tenant ≡ after) =
        ground arith in
      elim cases [
        | inl e ↦ subst IsSpared e kept
        | inr e ↦ subst IsSpared e (others-IsSpared now rows kept)
      ]

-- A tick of the retention, however many pages it gets to and whatever fails in it, deletes no delivery
-- of a campaign that is not over or was over less than the tenant's days ago, none that was created
-- less than these days ago, and none whose campaign is not in the table. The campaigns stand under
-- their identifiers.
pub retention_spares :
    (cfg : RetentionConfig) (page_done : ℕ → Bool) (chunk_done : String → ℕ → Bool) (days pages : ℕ)
    (now : Time) (s : RetainedRows) (j : String) (d : Delivery)
    → IsMap s.tenant.campaigns
    → ((k : String) (c : Campaign) → lookup k s.tenant.campaigns ≡ some c → c.id ≡ k)
    → IsValid s.tenant.base
    → lookup j s.tenant.base.deliveries ≡ some d
    → is_retired (now - suc days * day) s.tenant.campaigns d ≡ false
    → lookup j
        (retention_tick cfg page_done chunk_done
          (ok (pos (suc days)))
          pages
          now
          s).0.tenant.base.deliveries
      ≡ some d
unfolding retention_tick
retention_spares cfg page_done chunk_done days pages now s j d m keyed v at spared =
    (retain_from-IsSpared cfg page_done chunk_done (now - suc days * day) s.tenant.campaigns m keyed
      j d spared pages now s (record { same = refl; valid = v; at = at })).at
