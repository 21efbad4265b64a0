-- ===== src/Tests/Retention.antt =====
-- A tick of the retention.
use sendplane.Common.{
  ℕ, ◌*◌, String, ◌≡◌, refl, Bool, false, [], ◌∷◌, none, some, pos, arith, lookup, eq_iff, matching,
  IsMap,
}
use sendplane.Store.Enums.{CampaignStatus}
use sendplane.Store.Errors.{ok}
use sendplane.Store.Time.{Time, truncate_time}
use sendplane.Memstore.Suppressions.{Suppression, SuppressionReason, is_suppressed, has_expired}
use sendplane.Control.Maintenance.{
  RetentionConfig, RetainedRows, retention_tick, delete_expired_suppressions, day,
}
use sendplane.Control.Retention.{retention_spares}
use sendplane.Control.Expiry.{retention_keeps_answers}
use sendplane.Control.Drained.{expired_entries, expired_suppressions_drain}
use sendplane.Tests.Data.{apart, row, loaded, loaded-IsValid}
use sendplane.Tests.Campaigns.{tenant}

abbrev pub retention_cfg : RetentionConfig
retention_cfg = record { campaign_page = 2; retention_chunk = 1; retention_max_chunks = 3 }

abbrev pub going : ℕ → Bool
going i = false

abbrev pub going_on : String → ℕ → Bool
going_on what i = false

abbrev suppressed : String → Time → Suppression
suppressed email until = record {
  tenant_id = "t1";
  email_norm = email;
  reason = SuppressionReason.hard_bounce;
  source_delivery_id = "d1";
  created_at = 1_000_000;
  expires_at = until;
}

-- The first address stays on the list, the other two have expired.
abbrev rows : RetainedRows
rows = record {
  tenant = tenant CampaignStatus.running;
  suppressions =
      ("a@x.org", suppressed "a@x.org" 0)
      ∷ ("b@x.org", suppressed "b@x.org" 2_000_000)
      ∷ ("c@x.org", suppressed "c@x.org" 3_000_000)
      ∷ [];
  tracking = [];
  bounces = [];
}

list-IsMap : IsMap rows.suppressions
list-IsMap k = ground (
  arith,
  apart "a@x.org" "b@x.org" k refl,
  apart "a@x.org" "c@x.org" k refl,
  apart "b@x.org" "c@x.org" k refl,
)

retention_spares_example :
    lookup "d1"
      (retention_tick retention_cfg going going_on
        (ok (pos 30))
        5
        (100 * day)
        rows).0.tenant.base.deliveries
    ≡ some (row "d1" "a@x.org" 0)
unfolding lookup
retention_spares_example =
    retention_spares retention_cfg going going_on 29 5 (100 * day) rows "d1" (row "d1" "a@x.org" 0)
      (λ k. ground arith) (λ k c h. ground (arith, eq_iff "c1" k)) loaded-IsValid refl
      (ground arith)

retention_keeps_answers_example :
    is_suppressed "a@x.org"
      (200 * day)
      loaded
      (retention_tick retention_cfg going going_on (ok (pos 30)) 5 (100 * day) rows).0.suppressions
    ≡ is_suppressed "a@x.org" (200 * day) loaded rows.suppressions
retention_keeps_answers_example =
    retention_keeps_answers retention_cfg going going_on (ok (pos 30)) 5 (100 * day) (200 * day)
      rows "a@x.org" loaded list-IsMap (omega arith)

two_expired : expired_entries (100 * day) rows.suppressions ≡ 2
unfolding matching has_expired truncate_time
two_expired = refl

expired_suppressions_drain_example :
    let r =
      delete_expired_suppressions retention_cfg going going_on
        (100 * day)
        loaded
        rows.suppressions in
    (expired_entries (100 * day) r.0 ≡ 0)
    × (r.1 ≡ expired_entries (100 * day) rows.suppressions)
    × (r.2 ≡ none)
expired_suppressions_drain_example =
    expired_suppressions_drain retention_cfg going going_on (100 * day) loaded rows.suppressions
      (λ i. refl) (omega arith) refl list-IsMap (omega (arith, two_expired))
