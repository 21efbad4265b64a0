-- ===== src/Dnscheck/Address.antt =====
-- internal/dnscheck/spf.go: `matchCIDR` and `containsIP`, on what Go's net reads as an address. An
-- address is four bytes, also where Go keeps it as an IPv4-mapped one, or sixteen.
use sendplane.Common.{
  ℕ, zero, suc, ◌+◌, ◌-◌, ◌*◌, ◌/◌, ◌%◌, Bool, true, false, ◌&&◌, ◌||◌, not, List, [], ◌∷◌, ◌++◌,
  Option, none, some, length, take, drop, leb, ltb, ◌==◌, if◌then◌else◌, Bytes, codes, is_digit,
  bytes_eq, cut_at, has_prefix, is_empty, number_from,
}

pub data Ip : Type 0 where
  v4 v6 : Bytes → Ip

-- netip's parser of the four fields: `val` is the field read so far, of `digits` digits.
v4_fields : Bytes → ℕ → ℕ → Bytes → Option Bytes
v4_fields [] val digits out =
    if digits == 0 || not (length out == 3) then none else some (out ++ val ∷ [])
v4_fields (c ∷ s) val digits out = elim (is_digit c) [
  | true ↦ elim ((digits == 1 && val == 0) || ltb 255 (val * 10 + (c - b'0'))) [
    | true ↦ none
    | false ↦ v4_fields s (val * 10 + (c - b'0')) (suc digits) out
  ]
  | false ↦ elim (not (c == b'.') || digits == 0 || length out == 3) [
    | true ↦ none
    | false ↦ v4_fields s 0 0 (out ++ val ∷ [])
  ]
]

abbrev hex_value : ℕ → Option ℕ
hex_value c =
    if is_digit c
    then some (c - b'0')
    else if leb b'a' c && leb c b'f'
    then some (c - b'a' + 10)
    else if leb b'A' c && leb c b'F'
    then some (c - b'A' + 10)
    else none

-- One group of netip's IPv6 parser: the number of its digits, its value and the rest.
hex_group : Bytes → ℕ → ℕ → Option (ℕ × ℕ × Bytes)
hex_group [] off acc = some (off, acc, [])
hex_group (c ∷ s) off acc = elim (hex_value c) [
  | none ↦ some (off, acc, c ∷ s)
  | some d ↦ elim (ltb 3 off) [ true ↦ none | false ↦ hex_group s (suc off) (acc * 16 + d) ]
]

-- The loop over at most that many groups: the bytes so far, and where `::` stood.
v6_groups : ℕ → Bytes → Bytes → Option ℕ → Option (Bytes × Option ℕ × Bytes)
unfolding hex_group v4_fields
v6_groups zero s out ellipsis = some (out, ellipsis, s)
v6_groups (suc n) s out ellipsis = elim (hex_group s 0 0) [
  | none ↦ none
  | some g ↦
      let out' = out ++ (g.1 / 256) ∷ (g.1 % 256) ∷ [] in
      let misplaced : Bool = elim ellipsis [ none ↦ not (length out == 12) | some e ↦ false ] in
      if g.0 == 0 then none else elim g.2 [
        | [] ↦ some (out', ellipsis, [])
        | c ∷ r ↦ elim (c == b'.') [
          | true ↦
              if misplaced || ltb 16 (length out + 4) then none else elim (v4_fields s 0 0 []) [
                | none ↦ none
                | some q ↦ some (out ++ q, ellipsis, [])
              ]
          | false ↦ elim (c == b':') [
            | false ↦ none
            | true ↦ elim r [
              | [] ↦ none
              | d ∷ t ↦ elim (d == b':') [
                | false ↦ v6_groups n (d ∷ t) out' ellipsis
                | true ↦ elim ellipsis [
                  | some e ↦ none
                  | none ↦ elim t [
                    | [] ↦ some (out', some (length out'), [])
                    | e ∷ u ↦ v6_groups n (e ∷ u) out' (some (length out'))
                  ]
                ]
              ]
            ]
          ]
        ]
      ]
]

zeros : ℕ → Bytes
zeros zero = []
zeros (suc n) = 0 ∷ zeros n

abbrev expanded : Option (Bytes × Option ℕ × Bytes) → Option Bytes
expanded none = none
expanded (some r) = if not (is_empty r.2) then none else elim r.1 [
  | none ↦ if length r.0 == 16 then some r.0 else none
  | some e ↦
      if ltb (length r.0) 16
      then some (take e r.0 ++ zeros (16 - length r.0) ++ drop e r.0)
      else none
]

parse_v6 : Bytes → Option Bytes
unfolding v6_groups zeros
parse_v6 s =
    if has_prefix s (codes "::")
    then (if is_empty (drop 2 s)
        then some (zeros 16)
        else expanded (v6_groups 8 (drop 2 s) [] (some 0)))
    else expanded (v6_groups 8 s [] none)

-- netip.ParseAddr: four bytes for a dotted address, else sixteen. The first of the marks decides.
parse_addr_from : Bytes → Bytes → Option Bytes
unfolding v4_fields parse_v6
parse_addr_from s [] = none
parse_addr_from s (c ∷ r) =
    let rest = parse_addr_from s r in
    if c == b'.'
    then v4_fields s 0 0 []
    else if c == b':'
    then parse_v6 s
    else if c == b'%'
    then none
    else rest

parse_addr : Bytes → Option Bytes
unfolding parse_addr_from
parse_addr s = parse_addr_from s s

-- The prefix of the IPv4-mapped addresses.
mapped_prefix : Bytes
unfolding zeros
mapped_prefix = zeros 10 ++ 255 ∷ 255 ∷ []

-- `To4`, or the sixteen bytes.
unfoldable pub ip_of : Bytes → Ip
unfolding mapped_prefix
ip_of a =
    if length a == 4
    then Ip.v4 a
    else if bytes_eq (take 12 a) mapped_prefix
    then Ip.v4 (drop 12 a)
    else Ip.v6 a

-- net.ParseIP
unfoldable pub parse_ip : Bytes → Option Ip
unfolding parse_addr ip_of
parse_ip s = elim (parse_addr s) [ none ↦ none | some a ↦ some (ip_of a) ]

-- 2 ^ (8 - n), for the bits of a byte that a mask of n bits clears.
below_mask : ℕ → ℕ
below_mask zero = 256
below_mask (suc zero) = 128
below_mask (suc (suc zero)) = 64
below_mask (suc (suc (suc zero))) = 32
below_mask (suc (suc (suc (suc zero)))) = 16
below_mask (suc (suc (suc (suc (suc zero))))) = 8
below_mask (suc (suc (suc (suc (suc (suc zero)))))) = 4
below_mask (suc (suc (suc (suc (suc (suc (suc zero))))))) = 2
below_mask (suc (suc (suc (suc (suc (suc (suc (suc n)))))))) = 1

-- `ip.Mask(net.CIDRMask(n, bits))`
unfoldable pub masked : ℕ → Bytes → Bytes
unfolding below_mask
masked n [] = []
masked n (b ∷ bs) = (b / below_mask n * below_mask n) ∷ masked (n - 8) bs

-- `Contains` of the network of an address and a prefix length. A masked address of sixteen bytes
-- that is still IPv4-mapped is compared by its last four.
unfoldable pub network_contains : Bytes → ℕ → Ip → Bool
unfolding masked ip_of
network_contains a n ip = elim (ip_of (masked n a)) [
  | v4 net ↦ elim ip [
    | v4 b ↦ bytes_eq net (masked (if length a == 4 then n else n - 96) b)
    | v6 b ↦ false
  ]
  | v6 net ↦ elim ip [ v4 b ↦ false | v6 b ↦ bytes_eq net (masked n b) ]
]

-- The digits of a mask: Go's `dtoi` with nothing after it.
mask_length : Bytes → Option ℕ
mask_length s = if is_empty s then none else number_from 0 s

unfoldable pub ip_eq : Ip → Ip → Bool
ip_eq (Ip.v4 a) (Ip.v4 b) = bytes_eq a b
ip_eq (Ip.v4 a) (Ip.v6 b) = false
ip_eq (Ip.v6 a) (Ip.v4 b) = false
ip_eq (Ip.v6 a) (Ip.v6 b) = bytes_eq a b

-- matchCIDR; `none` is its error.
unfoldable pub match_cidr : Bytes → Ip → Option Bool
unfolding parse_addr network_contains mask_length parse_ip ip_eq
match_cidr spec ip = elim (cut_at b'/' spec) [
  | some p ↦ elim (parse_addr p.0) [
    | none ↦ none
    | some a ↦ elim (mask_length p.1) [
      | none ↦ none
      | some n ↦ if ltb (length a * 8) n then none else some (network_contains a n ip)
    ]
  ]
  | none ↦ elim (parse_ip spec) [ none ↦ none | some got ↦ some (ip_eq got ip) ]
]

-- `To16` of a four byte address.
mapped : Bytes → Bytes
unfolding mapped_prefix
mapped a = mapped_prefix ++ a

-- The test of containsIP on one address.
unfoldable pub same_network : ℕ → Ip → Ip → Bool
unfolding masked mapped
same_network prefix (Ip.v4 b) (Ip.v4 a) = bytes_eq (masked prefix a) (masked prefix b)
same_network prefix (Ip.v4 b) (Ip.v6 a) = false
same_network prefix (Ip.v6 b) (Ip.v6 a) = bytes_eq (masked prefix a) (masked prefix b)
same_network prefix (Ip.v6 b) (Ip.v4 a) = bytes_eq (masked prefix (mapped a)) (masked prefix b)

-- containsIP
unfoldable pub contains_ip : List Ip → Ip → ℕ → Bool
unfolding same_network
contains_ip [] ip prefix = false
contains_ip (got ∷ list) ip prefix = same_network prefix ip got || contains_ip list ip prefix
