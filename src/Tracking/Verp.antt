-- ===== src/Tracking/Verp.antt =====
-- internal/tracking/verp.go: the envelope sender that a bounce comes back to.
pub mod RoundTrip
use sendplane.Common.{
  ℕ, Bool, true, false, ◌&&◌, ◌||◌, not, List, [], ◌∷◌, ◌++◌, Option, none, some, length, take,
  drop, if◌then◌else◌, Bytes, codes, has_prefix, is_empty, bytes_eq, cut_at, cut_last, hex_encode,
}

abbrev pub verp_prefix : Bytes
verp_prefix = codes "bounce+"

abbrev pub verp_mac_hex : ℕ
verp_mac_hex = 8

-- "sendplane/verp/v1\x00"
abbrev pub verp_context : Bytes
verp_context = codes "sendplane/verp/v1" ++ 0 ∷ []

-- The secrets of the signing keys, in their order.
abbrev pub SigningKeys : Type 0
SigningKeys = List Bytes

-- `hmac key message` is HMAC-SHA256 of Go's crypto library.
module _ (hmac : Bytes → Bytes → Bytes) where
  unfoldable pub verp_mac : Bytes → Bytes → Bytes
  verp_mac secret delivery_id =
      take verp_mac_hex (hex_encode (hmac secret (verp_context ++ delivery_id)))

  -- VERPAddress
  unfoldable pub verp_address : Bytes → Bytes → Bytes → Bytes
  verp_address bounce_domain delivery_id secret =
      if is_empty bounce_domain || is_empty delivery_id || is_empty secret
      then []
      else verp_prefix
        ++ (delivery_id ++ (b'.' ∷ verp_mac secret delivery_id ++ (b'@' ∷ bounce_domain)))

  unfoldable pub signed_by : Bytes → Bytes → Bytes → Bool
  signed_by k id mac = not (is_empty k) && bytes_eq mac (verp_mac k id)

  -- One of the keys that are not empty made the tag.
  unfoldable pub any_key : Bytes → Bytes → SigningKeys → Bool
  any_key id mac [] = false
  any_key id mac (k ∷ ks) = signed_by k id mac || any_key id mac ks

  unfoldable pub parse_local : Bytes → SigningKeys → Bytes × Bool
  parse_local local keys =
      if not (has_prefix local verp_prefix)
      then ([], false)
      else elim (cut_last b'.' (drop (length verp_prefix) local)) [
        | none ↦ ([], false)
        | some p ↦ if is_empty p.0 || is_empty p.1 then ([], false) else (p.0, any_key p.0 p.1 keys)
      ]

  -- ParseVERP
  unfoldable pub parse_verp : Bytes → SigningKeys → Bytes × Bool
  parse_verp addr keys = parse_local (elim (cut_at b'@' addr) [ none ↦ addr | some p ↦ p.0 ]) keys
