-- ===== src/Tests/Dns.antt =====
-- The SPF check on written out addresses, records and zones.
use sendplane.Common.{
  ◌≤◌, ◌↔◌, ◌≡◌, refl, true, Option, none, some, Bytes, ap, to_lower, equal_fold, if◌then◌else◌, [],
  ◌∷◌, codes, has_prefix, bytes_eq, cut_at, number_from, fields,
}
use sendplane.Dnscheck.Address.{Ip, parse_ip, match_cidr}
use sendplane.Store.Enums.{green}
use sendplane.Dnscheck.Spf.{
  Resolver, found, no_record, spf_eval, spf, spf_status, check_host, check_answer, check_records,
  run_parsed, run_terms, match_term, memo_txt, address_match, qualifier_result, noted,
  follow_redirect, after_redirect, dns_matches,
}
use sendplane.Dnscheck.Terms.{is_spf_record, parse_spf, parse_spf_term}
use sendplane.Dnscheck.Budget.{IsWithin, spf_eval-IsWithin}
use sendplane.Dnscheck.Memo.{direct_eval, forget, memo_is_transparent}
use sendplane.Dnscheck.Verdicts.{IsGood, spf_green_iff}

reads_v4 : parse_ip (codes "192.0.2.1") ≡ some (Ip.v4 (192 ∷ 0 ∷ 2 ∷ 1 ∷ []))
unfolding parse_ip has_prefix bytes_eq
reads_v4 = refl

rejects_leading_zero : parse_ip (codes "192.0.02.1") ≡ none
unfolding parse_ip has_prefix bytes_eq
rejects_leading_zero = refl

reads_ellipsis :
    parse_ip (codes "2001:db8::1")
    ≡ some (Ip.v6 (32 ∷ 1 ∷ 13 ∷ 184 ∷ 0 ∷ 0 ∷ 0 ∷ 0 ∷ 0 ∷ 0 ∷ 0 ∷ 0 ∷ 0 ∷ 0 ∷ 0 ∷ 1 ∷ []))
unfolding parse_ip has_prefix bytes_eq
reads_ellipsis = refl

reads_mapped : parse_ip (codes "::ffff:10.1.2.3") ≡ some (Ip.v4 (10 ∷ 1 ∷ 2 ∷ 3 ∷ []))
unfolding parse_ip has_prefix bytes_eq
reads_mapped = refl

network_of_v4 : match_cidr (codes "10.0.0.0/8") (Ip.v4 (10 ∷ 1 ∷ 2 ∷ 3 ∷ [])) ≡ some true
unfolding match_cidr cut_at has_prefix number_from bytes_eq
network_of_v4 = refl

network_of_mapped :
    match_cidr (codes "::ffff:10.0.0.0/104") (Ip.v4 (10 ∷ 1 ∷ 2 ∷ 3 ∷ [])) ≡ some true
unfolding match_cidr cut_at has_prefix number_from bytes_eq
network_of_mapped = refl

-- A zone of two names: the first includes the second, in capitals, twice.
abbrev zone : Resolver
zone = record {
  txt = λ name.
      if equal_fold name (codes "a.org")
      then found (codes "v=spf1 include:B.org include:b.org ~all" ∷ codes "other" ∷ [])
      else if equal_fold name (codes "b.org")
      then found (codes "v=spf1 ip4:10.0.0.0/8 -all" ∷ [])
      else no_record;
  a = λ name. no_record;
  aaaa = λ name. no_record;
  mx = λ name. no_record;
}

abbrev inside : Option Ip
inside = some (Ip.v4 (10 ∷ 1 ∷ 2 ∷ 3 ∷ []))

zone_insensitive : (m n : Bytes) → to_lower m ≡ to_lower n → zone.txt m ≡ zone.txt n
zone_insensitive m n h =
    ap
      (λ (low : Bytes).
        if bytes_eq low (to_lower (codes "a.org"))
        then found (codes "v=spf1 include:B.org include:b.org ~all" ∷ codes "other" ∷ [])
        else if bytes_eq low (to_lower (codes "b.org"))
        then found (codes "v=spf1 ip4:10.0.0.0/8 -all" ∷ [])
        else no_record)
      h

spf_eval-IsWithin_example : let x = spf_eval zone (codes "A.org") inside in IsWithin x.0 x.1.lookups
spf_eval-IsWithin_example = spf_eval-IsWithin zone (codes "A.org") inside

memo_is_transparent_example :
    let x = spf_eval zone (codes "A.org") inside in
    let y = direct_eval zone (codes "A.org") inside in (x.0 ≡ y.0) × (forget x.1 ≡ y.1)
memo_is_transparent_example = memo_is_transparent zone zone_insensitive (codes "A.org") inside

-- Without an observed address the record is followed to its `~all`.
spf_green_iff_example :
    let x = spf_eval zone (codes "A.org") none in
    (spf zone (codes "A.org") none ≡ green)
    ↔ ((x.1.lookups ≤ 10) × IsGood zone (codes "A.org") x.0 none)
spf_green_iff_example = spf_green_iff zone (codes "A.org") none

green_at_all : spf zone (codes "A.org") none ≡ green
unfolding spf spf_eval spf_status check_host check_answer check_records run_parsed run_terms
    match_term memo_txt address_match qualifier_result noted follow_redirect after_redirect
    dns_matches has_prefix bytes_eq cut_at number_from is_spf_record parse_spf to_lower fields
    parse_spf_term match_cidr
green_at_all = refl
