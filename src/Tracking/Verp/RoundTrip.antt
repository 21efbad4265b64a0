-- ===== src/Tracking/Verp/RoundTrip.antt =====
-- internal/tracking/verp.go: what `ParseVERP` makes of the addresses of `VERPAddress`, and of others.
use sendplane.Common.{
  ℕ, ◌<◌, ◌≡◌, refl, ap, ◌∙◌, ◌≢◌, ◌⊎◌, inl, inr, true, false, [], ◌∷◌, ◌++◌, some, arith, length,
  drop, length-take, Bytes, has_prefix, is_empty, has_byte, bytes_eq_iff, cut_at, cut_last,
  hex_encode, cut_at-append, cut_last-append, append_of_cut_at, append_of_cut_last,
  append_of_has_prefix, has_byte-hex_encode, length-hex_encode, Bool-cases, Option-cases,
}
use sendplane.Tracking.Verp.{
  verp_prefix, signed_by, verp_context, SigningKeys, verp_mac, verp_address, any_key, parse_local,
  parse_verp,
}

has_byte-append :
    (b : ℕ) (s t : Bytes)
    → has_byte b s ≡ false
    → has_byte b t ≡ false
    → has_byte b (s ++ t) ≡ false
unfolding has_byte
has_byte-append b [] t h k = k
has_byte-append b (c ∷ s) t h k = ground (arith, has_byte-append b s t)

append_assoc : (s t u : Bytes) → (s ++ t) ++ u ≡ s ++ (t ++ u)
append_assoc [] t u = refl
append_assoc (c ∷ s) t u = ap (λ (x : Bytes). c ∷ x) (append_assoc s t u)

nonempty : (s : Bytes) → is_empty s ≡ false → s ≢ []
nonempty [] h e = absurd (ground arith)
nonempty (c ∷ s) h e = cc

not_empty : (s : Bytes) → s ≢ [] → is_empty s ≡ false
not_empty [] n = absurd (n refl)
not_empty (c ∷ s) n = refl

module _ (hmac : Bytes → Bytes → Bytes) where
  signed_by_lem :
      (k id mac : Bytes) → signed_by hmac k id mac ≡ true → (k ≢ []) × (mac ≡ verp_mac hmac k id)
  unfolding signed_by
  signed_by_lem k id mac h =
      (nonempty k (ground arith), ground (arith, bytes_eq_iff mac (verp_mac hmac k id)))

  signed_by-verp_mac : (k id : Bytes) → k ≢ [] → signed_by hmac k id (verp_mac hmac k id) ≡ true
  unfolding signed_by
  signed_by-verp_mac k id n =
      ground (arith, not_empty k n, bytes_eq_iff (verp_mac hmac k id) (verp_mac hmac k id))

  any_key-append :
      (id secret : Bytes) (before after : SigningKeys)
      → secret ≢ []
      → any_key hmac id (verp_mac hmac secret id) (before ++ secret ∷ after) ≡ true
  unfolding any_key
  any_key-append id secret [] after n = ground (arith, signed_by-verp_mac secret id n)
  any_key-append id secret (k ∷ ks) after n = ground (arith, any_key-append id secret ks after n)

  key_of_any :
      (id mac : Bytes) (keys : SigningKeys)
      → any_key hmac id mac keys ≡ true
      → (before : SigningKeys) × (k : Bytes) × (after : SigningKeys) × (keys ≡ before ++ k ∷ after)
        × (k ≢ [])
        × (mac ≡ verp_mac hmac k id)
  unfolding any_key
  key_of_any id mac [] h = absurd (ground arith)
  key_of_any id mac (k ∷ ks) h = elim (Bool-cases (signed_by hmac k id mac)) [
    | inl e ↦ let s = signed_by_lem k id mac e in ([], k, ks, refl, s.0, s.1)
    | inr e ↦
        let (before, j, after, split, n, m) = key_of_any id mac ks (ground arith) in
        (k ∷ before, j, after, ap (λ (x : SigningKeys). k ∷ x) split, n, m)
  ]

  -- The part of an address that is signed.
  abbrev pub verp_local : Bytes → Bytes → Bytes
  verp_local id secret = verp_prefix ++ (id ++ b'.' ∷ verp_mac hmac secret id)

  module _ (sized : (key message : Bytes) → length (hmac key message) ≡ 32) where
    length-verp_mac : (secret id : Bytes) → length (verp_mac hmac secret id) ≡ 8
    unfolding verp_mac
    length-verp_mac secret id =
        let digest = hmac secret (verp_context ++ id) in
        omega (
          arith,
          sized secret (verp_context ++ id),
          length-hex_encode digest,
          length-take 8 (hex_encode digest),
        )

    has_byte-verp_mac :
        (b : ℕ) (secret id : Bytes)
        → (b < 48) ⊎ ((57 < b) × (b < 97))
        → has_byte b (verp_mac hmac secret id) ≡ false
    unfolding verp_mac
    has_byte-verp_mac b secret id h = has_byte-hex_encode b 8 _ h

    has_byte-dot : (secret id : Bytes) → has_byte b'@' (b'.' ∷ verp_mac hmac secret id) ≡ false
    unfolding has_byte
    has_byte-dot secret id =
        ground (arith, has_byte-verp_mac b'@' secret id (inr (omega arith, omega arith)))

    parse_local-verp_local :
        (id secret : Bytes) (before after : SigningKeys)
        → id ≢ []
        → secret ≢ []
        → parse_local hmac (verp_local id secret) (before ++ secret ∷ after) ≡ (id, true)
    unfolding parse_local has_prefix
    parse_local-verp_local id secret before after i n = ground (
      arith,
      cut_last-append b'.' id (verp_mac hmac secret id)
          (has_byte-verp_mac b'.' secret id (inl (omega arith))),
      not_empty id i,
      any_key-append id secret before after n,
      length-verp_mac secret id,
    )

    -- An address that was made for a delivery, whose identifier is not empty and has no `@`, parses to
    -- that identifier and is verified, by whichever of the tenant's keys it was made.
    pub parse_verp-verp_address :
        (domain id secret : Bytes) (before after : SigningKeys)
        → domain ≢ []
        → id ≢ []
        → secret ≢ []
        → has_byte b'@' id ≡ false
        → parse_verp hmac (verp_address hmac domain id secret) (before ++ secret ∷ after)
          ≡ (id, true)
    unfolding parse_verp verp_address cut_at
    parse_verp-verp_address domain id secret before after d i n at = ground (
      arith,
      not_empty domain d,
      not_empty id i,
      not_empty secret n,
      append_assoc id (b'.' ∷ verp_mac hmac secret id) (b'@' ∷ domain),
      cut_at-append b'@' (id ++ b'.' ∷ verp_mac hmac secret id) domain
          (has_byte-append b'@' id (b'.' ∷ verp_mac hmac secret id) at (has_byte-dot secret id)),
      parse_local-verp_local id secret before after i n,
    )

  local_of_cut :
      (local p q id k : Bytes)
      → has_prefix local verp_prefix ≡ true
      → cut_last b'.' (drop (length verp_prefix) local) ≡ some (p, q)
      → p ≡ id
      → q ≡ verp_mac hmac k id
      → local ≡ verp_local id k
  local_of_cut local p q id k prefixed cut same signed =
      let split = append_of_cut_last b'.' (drop (length verp_prefix) local) p q cut in
      let whole = append_of_has_prefix local verp_prefix prefixed in
      rw (← signed, ← same) (whole ∙ ap (λ (x : Bytes). verp_prefix ++ x) split)

  local_of_parse :
      (local : Bytes) (keys : SigningKeys) (id : Bytes)
      → parse_local hmac local keys ≡ (id, true)
      → (before : SigningKeys) × (k : Bytes) × (after : SigningKeys) × (keys ≡ before ++ k ∷ after)
        × (k ≢ [])
        × (local ≡ verp_local id k)
  unfolding parse_local
  local_of_parse local keys id h =
      elim (Option-cases (cut_last b'.' (drop (length verp_prefix) local))) [
        | inl e ↦ absurd (ground arith)
        | inr (p, e) ↦
            let prefixed : has_prefix local verp_prefix ≡ true = ground arith in
            let same : p.0 ≡ id = ground arith in
            let signed : any_key hmac id p.1 keys ≡ true = ground arith in
            let (before, k, after, split, n, m) = key_of_any id p.1 keys signed in
            (before, k, after, split, n, local_of_cut local p.0 p.1 id k prefixed e same m)
      ]

  -- Only the tenant's keys make a verified address: if an address parses as verified, it is the
  -- delivery's, with the tag that one of the keys makes for it, up to the domain.
  pub verified_is_signed :
      (addr : Bytes) (keys : SigningKeys) (id : Bytes)
      → parse_verp hmac addr keys ≡ (id, true)
      → (before : SigningKeys) × (k : Bytes) × (after : SigningKeys) × (keys ≡ before ++ k ∷ after)
        × (k ≢ [])
        × ((addr ≡ verp_local id k)
            ⊎ ((domain : Bytes) × (addr ≡ verp_local id k ++ b'@' ∷ domain)))
  unfolding parse_verp
  verified_is_signed addr keys id h = elim (Option-cases (cut_at b'@' addr)) [
    | inl e ↦
        let (before, k, after, split, n, l) = local_of_parse addr keys id (ground arith) in
        (before, k, after, split, n, inl l)
    | inr (p, e) ↦
        let (before, k, after, split, n, l) = local_of_parse p.0 keys id (ground arith) in
        (before, k, after, split, n, inr (p.1, ground (arith, append_of_cut_at b'@' addr p.0 p.1)))
  ]
