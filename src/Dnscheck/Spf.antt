-- ===== src/Dnscheck/Spf.antt =====
-- internal/dnscheck/spf.go: the evaluation of an SPF record. The answers of the DNS are a `Resolver`;
-- the texts of errors are left out.
use sendplane.Common.{
  ℕ, zero, suc, Bool, true, false, ◌&&◌, ◌||◌, not, List, [], ◌∷◌, ◌++◌, Option, none, some, take,
  select, ltb, if◌then◌else◌, Bytes, codes, to_lower, bytes_eq, is_empty,
}
use sendplane.Store.Enums.{HealthStatus, green, yellow, red}
use sendplane.Dnscheck.Address.{Ip, match_cidr, contains_ip}
use sendplane.Dnscheck.Terms.{
  SpfTerm, term_ignored, is_spf_record, parse_spf, term_text, target, prefix_of, is_name,
}

-- `no_record` is an error that is ErrNoRecord, `failed` any other.
pub data Lookup (A : Type 0) : Type 0 where
  found : A → Lookup A
  no_record failed : Lookup A

-- The hosts of the MX records, in their order.
pub record Resolver : Type 0 where
  pub txt : Bytes → Lookup (List Bytes)
  pub a : Bytes → Lookup (List Ip)
  pub aaaa : Bytes → Lookup (List Ip)
  pub mx : Bytes → Lookup (List Bytes)

pub data SpfResult : Type 0 where
  spf_pass spf_fail spf_softfail spf_neutral spf_none spf_permerror spf_temperror : SpfResult

abbrev pub max_spf_lookups : ℕ
max_spf_lookups = 10

abbrev pub max_spf_depth : ℕ
max_spf_depth = 12

pub record SpfEval : Type 0 where
  pub lookups : ℕ
  pub seen : List (Bytes × Lookup (List Bytes))
  pub top_record : Bytes
  pub matched : Bytes
  pub has_all : Bool

pub data Match : Type 0 where
  hit miss : Match
  -- A result that ends the whole evaluation.
  stop : SpfResult → Match

-- `e.lookups++`
abbrev pub charged : SpfEval → SpfEval
charged e = record e { lookups = suc e.lookups }

-- The budget is used up: what `charge` denies.
abbrev pub over_budget : SpfEval → Bool
over_budget e = ltb max_spf_lookups e.lookups

abbrev pub seen_answer : Bytes → List (Bytes × Lookup (List Bytes)) → Option (Lookup (List Bytes))
seen_answer key [] = none
seen_answer key ((k, answer) ∷ m) = if bytes_eq k key then some answer else seen_answer key m

-- `spfEval.txt`
unfoldable pub memo_txt : Resolver → Bytes → SpfEval → Lookup (List Bytes) × SpfEval
memo_txt r name e = elim (seen_answer (to_lower name) e.seen) [
  | some answer ↦ (answer, e)
  | none ↦ (r.txt name, record e { seen = (to_lower name, r.txt name) ∷ e.seen })
]

-- `spfEval.addrs`
abbrev addrs : Resolver → Bytes → Ip → Lookup (List Ip)
addrs r name (Ip.v4 b) = r.a name
addrs r name (Ip.v6 b) = r.aaaa name

host_matches : Resolver → SpfTerm → Ip → Bytes → Bool
host_matches r t ip host = elim (addrs r host ip) [
  | found ips ↦ contains_ip ips ip (prefix_of t ip)
  | no_record ↦ false
  | failed ↦ false
]

any_host_matches : Resolver → SpfTerm → Ip → List Bytes → Bool
unfolding host_matches
any_host_matches r t ip [] = false
any_host_matches r t ip (h ∷ hs) = host_matches r t ip h || any_host_matches r t ip hs

mx_matches : Resolver → SpfTerm → Ip → Bytes → Bool
unfolding any_host_matches
mx_matches r t ip name = elim (r.mx name) [
  | found mxs ↦ any_host_matches r t ip (take max_spf_lookups mxs)
  | no_record ↦ false
  | failed ↦ false
]

exists_matches : Resolver → Bytes → Bool
exists_matches r name = elim (r.a name) [ found ips ↦ true | no_record ↦ false | failed ↦ false ]

-- The mechanisms that ask the DNS for something else than another record. Without an observed
-- address `a` and `mx` match nothing.
unfoldable pub dns_matches : Resolver → SpfTerm → Bytes → Option Ip → Bool
unfolding host_matches mx_matches exists_matches
dns_matches r t domain observed =
    if is_name t.name "a"
    then elim observed [ none ↦ false | some ip ↦ host_matches r t ip (target t domain) ]
    else if is_name t.name "mx"
    then elim observed [ none ↦ false | some ip ↦ mx_matches r t ip (target t domain) ]
    else if is_name t.name "exists"
    then exists_matches r t.value
    else false

abbrev hit_if : Bool → Match
hit_if true = hit
hit_if false = miss

-- The result of an included record, for the mechanism that includes it.
abbrev pub included : SpfResult → Match
included spf_pass = hit
included spf_fail = miss
included spf_softfail = miss
included spf_neutral = miss
included spf_none = stop spf_permerror
included spf_permerror = stop spf_permerror
included spf_temperror = stop spf_temperror

unfoldable pub address_match : Bytes → Option Ip → Match
address_match spec none = miss
address_match spec (some ip) = elim (match_cidr spec ip) [
  | none ↦ stop spf_permerror
  | some b ↦ hit_if b
]

abbrev pub asks_dns : Bytes → Bool
asks_dns name =
    is_name name "a"
    || is_name name "mx"
    || is_name name "include"
    || is_name name "exists"
    || is_name name "ptr"

-- qualifierResult
unfoldable pub qualifier_result : ℕ → SpfResult
qualifier_result q =
    if bytes_eq (q ∷ []) (codes "-")
    then spf_fail
    else if bytes_eq (q ∷ []) (codes "~")
    then spf_softfail
    else if bytes_eq (q ∷ []) (codes "?")
    then spf_neutral
    else spf_pass

-- A redirect to a domain with no record is an error; else the redirect is what decided, unless
-- something deeper was noted.
unfoldable pub after_redirect : Bytes → SpfResult → SpfEval → SpfResult × SpfEval
after_redirect redirect spf_none e = (spf_permerror, e)
after_redirect redirect res e = (
  res,
  record e { matched = if is_empty e.matched then codes "redirect:" ++ redirect else e.matched },
)

unfoldable pub noted : Bool → SpfTerm → SpfEval → SpfEval
noted top t e = record e { matched = if top || is_empty e.matched then term_text t else e.matched }

-- The top record ends in `all`, or in a redirect.
abbrev pub begun : Bool → SpfTerm → SpfEval → SpfEval
begun top t e = record e { has_all = (top && is_name t.name "all") || e.has_all }

abbrev pub redirected : Bool → SpfEval → SpfEval
redirected top e = charged (record e { has_all = top || e.has_all })

abbrev pub is_modifier : SpfTerm → Bool
is_modifier t = is_name t.name "redirect" || is_name t.name "exp" || bytes_eq t.name term_ignored

-- An evaluation of the record of a domain.
abbrev pub Evaluation : Type 0
Evaluation = Bytes → SpfEval → SpfResult × SpfEval

-- `txt` looks up TXT records, and `inner` evaluates the record of another domain one level deeper.
module _ (r : Resolver) (txt : Bytes → SpfEval → Lookup (List Bytes) × SpfEval) where
  module _ (inner : Evaluation) (top : Bool) (domain : Bytes) (observed : Option Ip) where
    -- `spfEval.match`
    unfoldable pub match_term : SpfTerm → SpfEval → Match × SpfEval
    match_term t e =
        if is_name t.name "all"
        then (hit, e)
        else if is_name t.name "ip4" || is_name t.name "ip6"
        then (address_match t.value observed, e)
        else if not (asks_dns t.name)
        then (stop spf_permerror, e)
        else if over_budget (charged e)
        then (stop spf_permerror, charged e)
        else if is_name t.name "include"
        then (let x = inner t.value (charged e) in (included x.0, x.1))
        else (hit_if (dns_matches r t domain observed), charged e)

    -- What follows the last term: the redirect, if there was one.
    unfoldable pub follow_redirect : Bytes → SpfEval → SpfResult × SpfEval
    follow_redirect redirect e =
        let e' = redirected top e in
        if is_empty redirect
        then (spf_neutral, e)
        else if over_budget e'
        then (spf_permerror, e')
        else (let x = inner redirect e' in after_redirect redirect x.0 x.1)

    -- The loop over the terms.
    unfoldable pub run_terms : List SpfTerm → Bytes → SpfEval → SpfResult × SpfEval
    run_terms [] redirect e = follow_redirect redirect e
    run_terms (t ∷ ts) redirect e = elim (is_modifier t) [
      | true ↦ run_terms ts (if is_name t.name "redirect" then t.value else redirect) e
      | false ↦
          let x = match_term t (begun top t e) in
          elim x.0 [
            | hit ↦ (qualifier_result t.qualifier, noted top t x.1)
            | miss ↦ run_terms ts redirect x.1
            | stop res ↦ (res, x.1)
          ]
    ]

    -- The terms of the record, if it could be parsed.
    unfoldable pub run_parsed : Option (List SpfTerm) → SpfEval → SpfResult × SpfEval
    run_parsed none e = (spf_permerror, e)
    run_parsed (some ts) e = run_terms ts [] e

    -- The SPF records of the domain: there must be one.
    unfoldable pub check_records : List Bytes → SpfEval → SpfResult × SpfEval
    check_records [] e = (spf_none, e)
    check_records (text ∷ []) e =
        run_parsed (parse_spf text) (record e { top_record = if top then text else e.top_record })
    check_records (text ∷ other ∷ others) e = (spf_permerror, e)

    unfoldable pub check_answer : Lookup (List Bytes) → SpfEval → SpfResult × SpfEval
    check_answer no_record e = (spf_none, e)
    check_answer failed e = (spf_temperror, e)
    check_answer (found txts) e = check_records (select is_spf_record txts) e

  -- `spfEval.check`, on the number of levels that are left: `max_spf_depth + 1 - depth`.
  unfoldable pub check_host : ℕ → Bool → Option Ip → Evaluation
  check_host zero top observed domain e = (spf_permerror, e)
  check_host (suc levels) top observed domain e =
      let x = txt domain e in
      check_answer (check_host levels false observed) top domain observed x.0 x.1

abbrev pub new_eval : SpfEval
new_eval = record { lookups = 0; seen = []; top_record = []; matched = []; has_all = false }

-- The evaluation that `Checker.SPF` runs.
unfoldable pub spf_eval : Resolver → Bytes → Option Ip → SpfResult × SpfEval
spf_eval r domain observed =
    check_host r (memo_txt r) (suc max_spf_depth) true observed domain new_eval

-- `Checker.SPF`: the status of its result.
unfoldable pub spf_status : SpfResult → SpfEval → Option Ip → HealthStatus
spf_status spf_none e observed = red
spf_status spf_permerror e observed = red
spf_status spf_temperror e observed = yellow
spf_status spf_pass e none = if e.has_all then green else yellow
spf_status spf_fail e none = if e.has_all then green else yellow
spf_status spf_softfail e none = if e.has_all then green else yellow
spf_status spf_neutral e none = if e.has_all then green else yellow
spf_status spf_pass e (some ip) = green
spf_status spf_softfail e (some ip) = yellow
spf_status spf_neutral e (some ip) = yellow
spf_status spf_fail e (some ip) = red

unfoldable pub spf : Resolver → Bytes → Option Ip → HealthStatus
spf r domain observed = let x = spf_eval r domain observed in spf_status x.0 x.1 observed
