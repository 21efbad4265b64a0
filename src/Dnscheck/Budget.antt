-- ===== src/Dnscheck/Budget.antt =====
-- internal/dnscheck/spf.go: the limit of RFC 7208 on the lookups of one evaluation.
use sendplane.Common.{
  ℕ, zero, suc, ◌≤◌, ◌≡◌, ◌⊎◌, inl, inr, Bool, true, false, List, [], ◌∷◌, Option, none, some,
  arith, select, Bytes, ap,
}
use sendplane.Dnscheck.Address.{Ip}
use sendplane.Dnscheck.Terms.{SpfTerm, is_spf_record, parse_spf}
use sendplane.Dnscheck.Spf.{
  Lookup, found, no_record, failed, Resolver, SpfResult, spf_pass, spf_fail, spf_softfail,
  spf_neutral, spf_none, spf_permerror, spf_temperror, max_spf_depth, SpfEval, Match, stop, charged,
  memo_txt, included, after_redirect, noted, begun, redirected, Evaluation, match_term,
  follow_redirect, run_terms, check_records, run_parsed, check_answer, check_host, new_eval,
  spf_eval,
}

-- No more than the ten lookups are charged, or the eleventh ended the evaluation.
abbrev pub IsWithin : SpfResult → ℕ → Type 0
IsWithin res n = (n ≤ 10) ⊎ ((n ≡ 11) × (res ≡ spf_permerror))

abbrev IsMatchWithin : Match → ℕ → Type 0
IsMatchWithin m n = (n ≤ 10) ⊎ ((n ≡ 11) × (m ≡ stop spf_permerror))

included-IsWithin : (res : SpfResult) (n : ℕ) → IsWithin res n → IsMatchWithin (included res) n
included-IsWithin res n (inl h) = inl h
included-IsWithin res n (inr h) = inr (h.0, ap included h.1)

after_redirect-IsWithin :
    (redirect : Bytes) (res : SpfResult) (e : SpfEval)
    → IsWithin res e.lookups
    → IsWithin (after_redirect redirect res e).0 (after_redirect redirect res e).1.lookups
unfolding after_redirect
after_redirect-IsWithin redirect spf_none e w = ground arith
after_redirect-IsWithin redirect spf_pass e w = w
after_redirect-IsWithin redirect spf_fail e w = w
after_redirect-IsWithin redirect spf_softfail e w = w
after_redirect-IsWithin redirect spf_neutral e w = w
after_redirect-IsWithin redirect spf_permerror e w = w
after_redirect-IsWithin redirect spf_temperror e w = w

module _ (r : Resolver) (txt : Bytes → SpfEval → Lookup (List Bytes) × SpfEval) where
  module _ (inner : Evaluation) (top : Bool) (domain : Bytes) (observed : Option Ip)
      (within : (d : Bytes) (e : SpfEval)
        → e.lookups ≤ 10
        → IsWithin (inner d e).0 (inner d e).1.lookups) where
    match_term-IsMatchWithin :
        (t : SpfTerm) (e : SpfEval)
        → e.lookups ≤ 10
        → let x = match_term r txt inner top domain observed t e in IsMatchWithin x.0 x.1.lookups
    unfolding match_term
    match_term-IsMatchWithin t e w = ground (
      arith,
      included-IsWithin (inner t.value (charged e)).0 (inner t.value (charged e)).1.lookups,
      within t.value (charged e),
    )

    follow_redirect-IsWithin :
        (redirect : Bytes) (e : SpfEval)
        → e.lookups ≤ 10
        → let x = follow_redirect r txt inner top domain observed redirect e in
          IsWithin x.0 x.1.lookups
    unfolding follow_redirect
    follow_redirect-IsWithin redirect e w = ground (
      arith,
      within redirect (redirected top e),
      after_redirect-IsWithin redirect (inner redirect (redirected top e)).0
          (inner redirect (redirected top e)).1,
    )

    run_terms-IsWithin :
        (ts : List SpfTerm) (redirect : Bytes) (e : SpfEval)
        → e.lookups ≤ 10
        → let x = run_terms r txt inner top domain observed ts redirect e in
          IsWithin x.0 x.1.lookups
    unfolding run_terms noted
    run_terms-IsWithin [] redirect e w = follow_redirect-IsWithin redirect e w
    run_terms-IsWithin (t ∷ ts) redirect e w = ground (
      arith,
      run_terms-IsWithin ts t.value e w,
      run_terms-IsWithin ts redirect e w,
      match_term-IsMatchWithin t (begun top t e) w,
      run_terms-IsWithin ts redirect
          (match_term r txt inner top domain observed t (begun top t e)).1,
    )

    run_parsed-IsWithin :
        (terms : Option (List SpfTerm)) (e : SpfEval)
        → e.lookups ≤ 10
        → let x = run_parsed r txt inner top domain observed terms e in IsWithin x.0 x.1.lookups
    unfolding run_parsed
    run_parsed-IsWithin none e w = inl w
    run_parsed-IsWithin (some ts) e w = run_terms-IsWithin ts [] e w

    check_records-IsWithin :
        (texts : List Bytes) (e : SpfEval)
        → e.lookups ≤ 10
        → let x = check_records r txt inner top domain observed texts e in IsWithin x.0 x.1.lookups
    unfolding check_records
    check_records-IsWithin [] e w = inl w
    check_records-IsWithin (text ∷ []) e w = run_parsed-IsWithin (parse_spf text) _ w
    check_records-IsWithin (text ∷ other ∷ others) e w = inl w

    check_answer-IsWithin :
        (answer : Lookup (List Bytes)) (e : SpfEval)
        → e.lookups ≤ 10
        → let x = check_answer r txt inner top domain observed answer e in IsWithin x.0 x.1.lookups
    unfolding check_answer
    check_answer-IsWithin no_record e w = inl w
    check_answer-IsWithin failed e w = inl w
    check_answer-IsWithin (found txts) e w = check_records-IsWithin (select is_spf_record txts) e w

  module _ (keeps : (name : Bytes) (e : SpfEval) → (txt name e).1.lookups ≡ e.lookups) where
    check_host-IsWithin :
        (levels : ℕ) (top : Bool) (observed : Option Ip) (domain : Bytes) (e : SpfEval)
        → e.lookups ≤ 10
        → let x = check_host r txt levels top observed domain e in IsWithin x.0 x.1.lookups
    unfolding check_host
    check_host-IsWithin zero top observed domain e w = inl w
    check_host-IsWithin (suc levels) top observed domain e w =
        check_answer-IsWithin (check_host r txt levels false observed) top domain observed
          (λ d e' w'. check_host-IsWithin levels false observed d e' w') (txt domain e).0
          (txt domain e).1 (omega (arith, keeps domain e))

memo_txt-lookups :
    (r : Resolver) (name : Bytes) (e : SpfEval) → (memo_txt r name e).1.lookups ≡ e.lookups
unfolding memo_txt
memo_txt-lookups r name e = ground arith

-- One evaluation of a domain's SPF record charges at most ten lookups, or it charges an eleventh and
-- ends at once, through all the levels of includes and redirects, in a permerror.
pub spf_eval-IsWithin :
    (r : Resolver) (domain : Bytes) (observed : Option Ip)
    → let x = spf_eval r domain observed in IsWithin x.0 x.1.lookups
unfolding spf_eval
spf_eval-IsWithin r domain observed =
    check_host-IsWithin r (memo_txt r) (memo_txt-lookups r) (suc max_spf_depth) true observed domain
      new_eval (omega arith)
