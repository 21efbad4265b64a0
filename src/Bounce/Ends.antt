-- ===== src/Bounce/Ends.antt =====
-- internal/bounce/process.go: how an authentic report ends the delivery that it names.
use sendplane.Common.{
  String, ◌≡◌, refl, ap, ◌∙◌, ◌⊎◌, inl, inr, true, false, [], ◌∷◌, Option, some, Map, arith, lookup,
  adjust, lookup_adjusted,
}
use sendplane.Store.Enums.{DeliveryStatus, BounceType}
use sendplane.Store.Time.{Time, truncate_time}
use sendplane.Store.Delivery.{Delivery}
use sendplane.Memstore.Deliveries.Rows.{truncate_delivery}
use sendplane.Memstore.Deliveries.Complete.{terminal_row}
use sendplane.Memstore.Deliveries.Valid.{IsValid}
use sendplane.Bounce.Types.{
  Parsed, BouncePayload, Message, BounceData, HandleConfig, is_bounce, is_soft, terminal_of,
}
use sendplane.Bounce.Handle.{handle}
use sendplane.Bounce.Effects.{Untouched, Authentic, handle_cases}

-- The status that the kind of a report ends a delivery in.
abbrev pub EndsIn : BounceType → DeliveryStatus → Type 0
EndsIn kind status =
    ((kind ≡ BounceType.hard) × (status ≡ DeliveryStatus.bounced))
    ⊎ ((kind ≡ BounceType.complaint) × (status ≡ DeliveryStatus.complained))

-- A row `d` of the delivery that a report named, and `e` after the report was handled at `now`.
pub record IsEndedBy (kind : BounceType) (now : Time) (d e : Delivery) : Type 0 where
  pub ends : EndsIn kind e.status
  pub finished : e.finished_at ≡ truncate_time now
  pub unowned : e.lease_owner ≡ ""
  pub same_id : e.id ≡ d.id
  pub same_campaign : e.campaign_id ≡ d.campaign_id
  pub same_email : e.email ≡ d.email

ends_in :
    (p : Parsed) → is_bounce p ≡ true → is_soft p.kind ≡ false → EndsIn p.kind (terminal_of p.kind)
ends_in p b h = ground arith

terminal-IsEndedBy :
    (p : Parsed) (now : Time) (d : Delivery)
    → is_bounce p ≡ true
    → is_soft p.kind ≡ false
    → IsEndedBy p.kind now d (terminal_row (terminal_of p.kind) now d)
unfolding terminal_row truncate_delivery
terminal-IsEndedBy p now d b h = record {
  ends = ends_in p b h;
  finished = refl;
  unowned = refl;
  same_id = refl;
  same_campaign = refl;
  same_email = refl;
}

-- To change the row that stands under a key is to replace it.
adjust_row :
    (k : String) (f : Delivery → Delivery) (rows : Map Delivery) (d : Delivery)
    → lookup k rows ≡ some d
    → adjust k f rows ≡ adjust k (λ x. f d) rows
unfolding adjust lookup
adjust_row k f [] d h = refl
adjust_row k f ((j, w) ∷ rows) d h = ground (arith, adjust_row k f rows d)

-- On well-formed data, handling a message leaves every delivery as it is, or it ends one. Then the report is verified, of this tenant, and names that delivery, which was sent;
-- of all rows only its own is replaced: by one with the same id, campaign and address, finished now,
-- with no lease, and bounced if the report is a hard bounce, or complained if it is a complaint. A
-- forged, foreign or soft report ends nothing.
pub handle_ends :
    (normalize : String → Option String) (marshal : BouncePayload → String) (cfg : HandleConfig)
    (msg : Message) (p : Parsed) (now clock : Time) (tenant_id : String) (s : BounceData)
    → IsValid s.tenant.base
    → let h = handle normalize marshal cfg msg p now clock tenant_id s in
      let rows = s.tenant.base.deliveries in
      Untouched s h
      ⊎ ((d : Delivery) × Authentic normalize marshal cfg msg p now clock tenant_id d s
          × ((e : Delivery) × (h.state.tenant.base.deliveries
                ≡ adjust p.correlation.delivery_id (λ x. e) rows)
              × (lookup p.correlation.delivery_id h.state.tenant.base.deliveries ≡ some e)
              × (h.outcome.processed ≡ true)
              × IsEndedBy p.kind now d e))
handle_ends normalize marshal cfg msg p now clock tenant_id s v =
    let rows = s.tenant.base.deliveries in
    elim (handle_cases normalize marshal cfg msg p now clock tenant_id s) [
      | inl u ↦ inl u
      | inr (d, auth, ended) ↦
          let f = terminal_row (terminal_of p.kind) now in
          let key = p.correlation.delivery_id in
          let same : d.id ≡ key = v.ids key d auth.3 in
          let after = ended.2.0 ∙ ap (λ k. adjust k f rows) same in
          inr (
            d,
            auth,
            (
              f d,
              after ∙ adjust_row key f rows d auth.3,
              ap (lookup key) after ∙ lookup_adjusted key key f rows d refl auth.3,
              ended.0,
              terminal-IsEndedBy p now d auth.1 ended.1,
            ),
          )
    ]
