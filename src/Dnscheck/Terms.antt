-- ===== src/Dnscheck/Terms.antt =====
-- internal/dnscheck/spf.go: the terms of an SPF record and their parser.
use sendplane.Common.{
  ℕ, String, Bool, ◌++◌, true, false, ◌&&◌, ◌||◌, not, List, [], ◌∷◌, Option, none, some, length,
  take, drop, ltb, ◌==◌, if◌then◌else◌, Bytes, codes, to_lower, bytes_eq, equal_fold, is_empty,
  has_byte, cut_at, fields, atoi_up_to,
}
use sendplane.Dnscheck.Address.{Ip, match_cidr}

-- No prefix length is `none`, where the code has -1.
pub record SpfTerm : Type 0 where
  pub qualifier : ℕ
  pub name : Bytes
  pub value : Bytes
  pub cidr4 : Option ℕ
  pub cidr6 : Option ℕ

abbrev pub term_ignored : Bytes
term_ignored = codes "-ignored-"

-- isSPFRecord
unfoldable pub is_spf_record : Bytes → Bool
is_spf_record s =
    if ltb (length s) 6 || not (equal_fold (take 6 s) (codes "v=spf1"))
    then false
    else elim (drop 6 s) [ [] ↦ true | c ∷ r ↦ c == b' ' || c == 9 ]

term_of : ℕ → Bytes → Bytes → SpfTerm
term_of q name value = record {
  qualifier = q;
  name = name;
  value = value;
  cidr4 = none;
  cidr6 = none;
}

abbrev starts_with_slash : Bytes → Bool
starts_with_slash [] = false
starts_with_slash (d ∷ r) = d == b'/'

-- The part before `//`, and what follows it.
cut_double_slash : Bytes → Option (Bytes × Bytes)
cut_double_slash [] = none
cut_double_slash (c ∷ s) =
    if c == b'/' && starts_with_slash s
    then some ([], drop 1 s)
    else elim (cut_double_slash s) [ none ↦ none | some p ↦ some (c ∷ p.0, p.1) ]

-- A prefix length after its slash; `some none` where there is none.
v4_length : Bytes → Option (Option ℕ)
v4_length [] = some none
v4_length (c ∷ []) = some none
v4_length (c ∷ d ∷ s) =
    if c == b'/'
    then elim (atoi_up_to 32 (d ∷ s)) [ none ↦ none | some n ↦ some (some n) ]
    else some none

-- parseDualCIDR
unfoldable pub parse_dual_cidr : Bytes → Option (Option ℕ × Option ℕ)
unfolding cut_double_slash v4_length
parse_dual_cidr s = elim (cut_double_slash s) [
  | none ↦ elim (v4_length s) [ none ↦ none | some four ↦ some (four, none) ]
  | some p ↦ elim (atoi_up_to 128 p.1) [
    | none ↦ none
    | some six ↦ elim (v4_length p.0) [ none ↦ none | some four ↦ some (four, some six) ]
  ]
]

abbrev pub is_name : Bytes → String → Bool
is_name name word = bytes_eq name (codes word)

-- `redirect` and `exp` need a value; any other modifier is ignored.
modifier : Bytes → Bytes → Option SpfTerm
unfolding term_of
modifier name value =
    if is_name name "redirect" || is_name name "exp"
    then if is_empty value then none else some (term_of b'+' name value)
    else some (term_of b'+' term_ignored [])

with_prefix : ℕ → Bytes → Bytes → Bytes → Option SpfTerm
unfolding term_of
with_prefix q name value cidr =
    if is_empty cidr then some (term_of q name value) else elim (parse_dual_cidr cidr) [
      | none ↦ none
      | some p ↦ some (record (term_of q name value) { cidr4 = p.0; cidr6 = p.1 })
    ]

-- The part before a byte, and the rest with the byte; all of it if there is none.
split_keeping : ℕ → Bytes → Bytes × Bytes
split_keeping b s = elim (cut_at b s) [ none ↦ (s, []) | some p ↦ (p.0, b ∷ p.1) ]

-- The mechanism with its name in small letters, its argument and the prefix cut off its name.
mechanism : ℕ → Bytes → Bytes → Bytes → Option SpfTerm
unfolding term_of with_prefix split_keeping
mechanism q name rest cidr =
    let takes_prefix = is_name name "a" || is_name name "mx" || is_name name "ptr" in
    if not (is_empty cidr) && not takes_prefix
    then none
    else if is_name name "ip4" || is_name name "ip6"
    then (if is_empty rest then none else elim (match_cidr rest (Ip.v4 (0 ∷ 0 ∷ 0 ∷ 0 ∷ []))) [
      | none ↦ none
      | some b ↦ some (term_of q name rest)
    ])
    else if is_name name "all"
    then if is_empty rest then some (term_of q name []) else none
    else if is_name name "include" || is_name name "exists"
    then if is_empty rest then none else some (term_of q name rest)
    else if takes_prefix
    then (let p = split_keeping b'/' rest in
        with_prefix q name p.0 (if is_empty p.1 then cidr else p.1))
    else none

unqualified : ℕ → Bytes → Option SpfTerm
unfolding mechanism split_keeping
unqualified q f = if is_empty f then none else elim (cut_at b':' f) [
  | some p ↦
      if is_empty p.1
      then (let n = split_keeping b'/' p.0 in mechanism q (to_lower n.0) [] n.1)
      else mechanism q (to_lower p.0) p.1 []
  | none ↦ (let n = split_keeping b'/' f in mechanism q (to_lower n.0) [] n.1)
]

abbrev is_qualifier : ℕ → Bool
is_qualifier c = c == b'+' || c == b'-' || c == b'~' || c == b'?'

-- A term that is not a modifier. A word of the record is not empty.
directive : Bytes → Option SpfTerm
unfolding unqualified
directive [] = none
directive (c ∷ s) = if is_qualifier c then unqualified c s else unqualified b'+' (c ∷ s)

-- parseSPFTerm
unfoldable pub parse_spf_term : Bytes → Option SpfTerm
unfolding modifier directive
parse_spf_term f = elim (cut_at b'=' f) [
  | none ↦ directive f
  | some p ↦
      if is_empty p.0 || has_byte b':' p.0 || has_byte b'/' p.0
      then directive f
      else modifier (to_lower p.0) p.1
]

parse_terms : List Bytes → Option (List SpfTerm)
parse_terms [] = some []
parse_terms (f ∷ fs) = elim (parse_spf_term f) [
  | none ↦ none
  | some t ↦ elim (parse_terms fs) [ none ↦ none | some ts ↦ some (t ∷ ts) ]
]

-- parseSPF; `none` is its error.
unfoldable pub parse_spf : Bytes → Option (List SpfTerm)
unfolding parse_terms
parse_spf record_text = elim (fields record_text) [
  | [] ↦ none
  | f ∷ fs ↦ if equal_fold f (codes "v=spf1") then parse_terms fs else none
]

-- `spfTerm.String`
unfoldable pub term_text : SpfTerm → Bytes
term_text t =
    let s =
      if is_empty t.value || is_name t.name "a" || is_name t.name "mx"
      then t.name
      else t.name ++ b':' ∷ t.value in
    if t.qualifier == b'+' then s else t.qualifier ∷ s

-- `spfTerm.target`
abbrev pub target : SpfTerm → Bytes → Bytes
target t domain = if is_empty t.value then domain else t.value

-- `spfTerm.prefix`
unfoldable pub prefix_of : SpfTerm → Ip → ℕ
prefix_of t (Ip.v4 b) = elim t.cidr4 [ none ↦ 32 | some n ↦ n ]
prefix_of t (Ip.v6 b) = elim t.cidr6 [ none ↦ 128 | some n ↦ n ]
