-- ===== src/Dnscheck/Ends.antt =====
-- internal/dnscheck/spf.go: when the evaluation of a domain's SPF record reaches the end of it.
use sendplane.Common.{
  ℕ, zero, suc, ◌≡◌, refl, Bool, true, false, not, ◌&&◌, ◌||◌, List, [], ◌∷◌, Option, none, some,
  arith, inl, inr, ap, ◌∙◌, select, Bytes, is_empty, to_lower, if◌then◌else◌, Bool-cases,
}
use sendplane.Dnscheck.Address.{Ip}
use sendplane.Dnscheck.Terms.{SpfTerm, is_spf_record, parse_spf, is_name}
use sendplane.Dnscheck.Spf.{
  Lookup, found, no_record, failed, Resolver, SpfResult, spf_pass, spf_fail, spf_softfail,
  spf_neutral, spf_none, spf_permerror, spf_temperror, max_spf_depth, SpfEval, hit, miss, stop,
  memo_txt, after_redirect, noted, begun, redirected, is_modifier, Evaluation, match_term,
  follow_redirect, run_terms, check_records, run_parsed, check_answer, check_host, new_eval,
  spf_eval,
}

module _ (r : Resolver) (txt : Bytes → SpfEval → Lookup (List Bytes) × SpfEval) where
  -- The loop over the terms comes to an `all`, or past the last term with a redirect to follow: no
  -- mechanism before matched, and none was an error. `inner` evaluates the record of another domain.
  pub reaches_end : Evaluation → Bytes → Option Ip → List SpfTerm → Bytes → SpfEval → Bool
  unfolding match_term
  reaches_end inner domain observed [] redirect e = not (is_empty redirect)
  reaches_end inner domain observed (t ∷ ts) redirect e = elim (is_modifier t) [
    | true ↦
        reaches_end inner domain observed ts
          (if is_name t.name "redirect" then t.value else redirect) e
    | false ↦ elim (is_name t.name "all") [
      | true ↦ true
      | false ↦
          let x = match_term r txt inner true domain observed t e in
          elim x.0 [
            | hit ↦ false
            | miss ↦ reaches_end inner domain observed ts redirect x.1
            | stop res ↦ false
          ]
    ]
  ]

  -- Below the record of the domain, no level changes `has_all`.
  module _ (inner : Evaluation) (domain : Bytes) (observed : Option Ip)
      (same : (d : Bytes) (e : SpfEval) → (inner d e).1.has_all ≡ e.has_all) where
    match_term-has_all :
        (top : Bool) (t : SpfTerm) (e : SpfEval)
        → (match_term r txt inner top domain observed t e).1.has_all ≡ e.has_all
    unfolding match_term
    match_term-has_all top t e = ground (arith, same t.value (record e { lookups = suc e.lookups }))

    match_term-hits :
        (top : Bool) (t : SpfTerm) (e : SpfEval)
        → is_name t.name "all" ≡ true
        → match_term r txt inner top domain observed t e ≡ (hit, e)
    unfolding match_term
    match_term-hits top t e h = ground arith

    begun_other : (t : SpfTerm) (e : SpfEval) → is_name t.name "all" ≡ false → begun true t e ≡ e
    begun_other t e h = ap (λ b. record e { has_all = (true && b) || e.has_all }) h

    after_redirect-has_all :
        (redirect : Bytes) (res : SpfResult) (e : SpfEval)
        → (after_redirect redirect res e).1.has_all ≡ e.has_all
    unfolding after_redirect
    after_redirect-has_all redirect spf_none e = refl
    after_redirect-has_all redirect spf_pass e = refl
    after_redirect-has_all redirect spf_fail e = refl
    after_redirect-has_all redirect spf_softfail e = refl
    after_redirect-has_all redirect spf_neutral e = refl
    after_redirect-has_all redirect spf_permerror e = refl
    after_redirect-has_all redirect spf_temperror e = refl

    follow_redirect-has_all :
        (top : Bool) (redirect : Bytes) (e : SpfEval)
        → (follow_redirect r txt inner top domain observed redirect e).1.has_all
          ≡ ((top && not (is_empty redirect)) || e.has_all)
    unfolding follow_redirect
    follow_redirect-has_all top redirect e = ground (
      arith,
      same redirect (redirected top e),
      after_redirect-has_all redirect (inner redirect (redirected top e)).0
          (inner redirect (redirected top e)).1,
    )

    run_terms-inner :
        (ts : List SpfTerm) (redirect : Bytes) (e : SpfEval)
        → (run_terms r txt inner false domain observed ts redirect e).1.has_all ≡ e.has_all
    unfolding run_terms noted
    run_terms-inner [] redirect e = ground (arith, follow_redirect-has_all false redirect e)
    run_terms-inner (t ∷ ts) redirect e = ground (
      arith,
      run_terms-inner ts t.value e,
      run_terms-inner ts redirect e,
      match_term-has_all false t (begun false t e),
      run_terms-inner ts redirect
          (match_term r txt inner false domain observed t (begun false t e)).1,
    )

    run_parsed-inner :
        (terms : Option (List SpfTerm)) (e : SpfEval)
        → (run_parsed r txt inner false domain observed terms e).1.has_all ≡ e.has_all
    unfolding run_parsed
    run_parsed-inner none e = refl
    run_parsed-inner (some ts) e = run_terms-inner ts [] e

    check_records-inner :
        (texts : List Bytes) (e : SpfEval)
        → (check_records r txt inner false domain observed texts e).1.has_all ≡ e.has_all
    unfolding check_records
    check_records-inner [] e = refl
    check_records-inner (text ∷ []) e = run_parsed-inner (parse_spf text) _
    check_records-inner (text ∷ other ∷ others) e = refl

    check_answer-inner :
        (answer : Lookup (List Bytes)) (e : SpfEval)
        → (check_answer r txt inner false domain observed answer e).1.has_all ≡ e.has_all
    unfolding check_answer
    check_answer-inner no_record e = refl
    check_answer-inner failed e = refl
    check_answer-inner (found txts) e = check_records-inner (select is_spf_record txts) e

    run_terms-top :
        (ts : List SpfTerm) (redirect : Bytes) (e : SpfEval)
        → e.has_all ≡ false
        → (run_terms r txt inner true domain observed ts redirect e).1.has_all
          ≡ reaches_end inner domain observed ts redirect e
    unfolding run_terms noted reaches_end
    run_terms-top [] redirect e h = ground (arith, follow_redirect-has_all true redirect e)
    run_terms-top (t ∷ ts) redirect e h = elim (Bool-cases (is_name t.name "all")) [
      | inl all ↦ ground (
        arith,
        run_terms-top ts t.value e h,
        run_terms-top ts redirect e h,
        match_term-hits true t (begun true t e) all,
        match_term-has_all true t (begun true t e),
      )
      | inr other ↦
          let x = match_term r txt inner true domain observed t e in
          ground (
            arith,
            begun_other t e other,
            run_terms-top ts t.value e h,
            run_terms-top ts redirect e h,
            match_term-has_all true t e,
            run_terms-top ts redirect x.1,
          )
    ]

  module _ (keeps : (name : Bytes) (e : SpfEval) → (txt name e).1.has_all ≡ e.has_all) where
    check_host-has_all :
        (levels : ℕ) (observed : Option Ip) (domain : Bytes) (e : SpfEval)
        → (check_host r txt levels false observed domain e).1.has_all ≡ e.has_all
    unfolding check_host
    check_host-has_all zero observed domain e = refl
    check_host-has_all (suc levels) observed domain e =
        check_answer-inner (check_host r txt levels false observed) domain observed
          (check_host-has_all levels observed) (txt domain e).0 (txt domain e).1
        ∙ keeps domain e

memo_txt-has_all :
    (r : Resolver) (name : Bytes) (e : SpfEval) → (memo_txt r name e).1.has_all ≡ e.has_all
unfolding memo_txt
memo_txt-has_all r name e = ground arith

-- The evaluation after the record of the domain was looked up.
abbrev looked_up : Resolver → Bytes → Bytes → SpfEval
looked_up r domain text = record new_eval {
  seen = (to_lower domain, r.txt domain) ∷ [];
  top_record = text;
}

abbrev text_reaches_end : Resolver → Bytes → Option Ip → Bytes → Bool
text_reaches_end r domain observed text = elim (parse_spf text) [
  | none ↦ false
  | some ts ↦
      reaches_end r (memo_txt r) (check_host r (memo_txt r) max_spf_depth false observed) domain
        observed ts [] (looked_up r domain text)
]

abbrev only_reaches_end : Resolver → Bytes → Option Ip → List Bytes → Bool
only_reaches_end r domain observed [] = false
only_reaches_end r domain observed (text ∷ []) = text_reaches_end r domain observed text
only_reaches_end r domain observed (text ∷ other ∷ others) = false

abbrev answer_reaches_end : Resolver → Bytes → Option Ip → Lookup (List Bytes) → Bool
answer_reaches_end r domain observed no_record = false
answer_reaches_end r domain observed failed = false
answer_reaches_end r domain observed (found txts) =
    only_reaches_end r domain observed (select is_spf_record txts)

-- The domain has one SPF record, and its evaluation comes to its `all` or follows its redirect.
abbrev pub ReachesEnd : Resolver → Bytes → Option Ip → Type 0
ReachesEnd r domain observed = answer_reaches_end r domain observed (r.txt domain) ≡ true

check_host_top :
    (r : Resolver) (levels : ℕ) (observed : Option Ip) (domain : Bytes)
    → check_host r (memo_txt r) (suc levels) true observed domain new_eval
      ≡ check_answer r
          (memo_txt r)
          (check_host r (memo_txt r) levels false observed)
          true
          domain
          observed
          (r.txt domain)
          (record new_eval { seen = (to_lower domain, r.txt domain) ∷ [] })
unfolding check_host memo_txt
check_host_top r levels observed domain = refl

-- The flag that the code keeps says that the end was reached.
module _ (r : Resolver) (domain : Bytes) (observed : Option Ip) where
  abbrev inner : Evaluation
  inner = check_host r (memo_txt r) max_spf_depth false observed

  inner-has_all : (d : Bytes) (e : SpfEval) → (inner d e).1.has_all ≡ e.has_all
  inner-has_all = check_host-has_all r (memo_txt r) (memo_txt-has_all r) max_spf_depth observed

  run_parsed-flag :
      (text : Bytes) (terms : Option (List SpfTerm))
      → (run_parsed r
          (memo_txt r)
          inner
          true
          domain
          observed
          terms
          (looked_up r domain text)).1.has_all
        ≡ elim terms as (λ x. Bool) [
          | none ↦ false
          | some ts ↦
              reaches_end r (memo_txt r) inner domain observed ts [] (looked_up r domain text)
        ]
  unfolding run_parsed
  run_parsed-flag text none = refl
  run_parsed-flag text (some ts) =
      run_terms-top r (memo_txt r) inner domain observed inner-has_all ts []
        (looked_up r domain text) refl

  check_records-flag :
      (texts : List Bytes)
      → (check_records r
          (memo_txt r)
          inner
          true
          domain
          observed
          texts
          (record new_eval { seen = (to_lower domain, r.txt domain) ∷ [] })).1.has_all
        ≡ only_reaches_end r domain observed texts
  unfolding check_records
  check_records-flag [] = refl
  check_records-flag (text ∷ []) = run_parsed-flag text (parse_spf text)
  check_records-flag (text ∷ other ∷ others) = refl

  check_answer-flag :
      (answer : Lookup (List Bytes))
      → (check_answer r
          (memo_txt r)
          inner
          true
          domain
          observed
          answer
          (record new_eval { seen = (to_lower domain, r.txt domain) ∷ [] })).1.has_all
        ≡ answer_reaches_end r domain observed answer
  unfolding check_answer
  check_answer-flag no_record = refl
  check_answer-flag failed = refl
  check_answer-flag (found txts) = check_records-flag (select is_spf_record txts)

  pub spf_eval-has_all :
      (spf_eval r domain observed).1.has_all ≡ answer_reaches_end r domain observed (r.txt domain)
  unfolding spf_eval
  spf_eval-has_all =
      ap (λ (x : SpfResult × SpfEval). x.1.has_all) (check_host_top r max_spf_depth observed domain)
      ∙ check_answer-flag (r.txt domain)
