-- ===== src/Dnscheck/Memo.antt =====
-- internal/dnscheck/spf.go: the answers that one evaluation remembers, `spfEval.seen`.
use sendplane.Common.{
  ℕ, zero, suc, ◌≡◌, refl, subst, inl, inr, Bool, true, false, List, [], ◌∷◌, Option, none, some,
  arith, select, Bytes, bytes_eq, bytes_eq_iff, to_lower, Bool-cases, Option-cases,
}
use sendplane.Dnscheck.Address.{Ip}
use sendplane.Dnscheck.Terms.{SpfTerm, is_spf_record, parse_spf}
use sendplane.Dnscheck.Spf.{
  Lookup, found, no_record, failed, Resolver, SpfResult, spf_pass, spf_fail, spf_softfail,
  spf_neutral, spf_none, spf_permerror, spf_temperror, max_spf_depth, SpfEval, charged, seen_answer,
  memo_txt, after_redirect, noted, begun, redirected, Evaluation, match_term, follow_redirect,
  run_terms, run_parsed, check_records, check_answer, check_host, new_eval, spf_eval,
}

-- The evaluation that asks the DNS each time.
unfoldable pub direct_txt : Resolver → Bytes → SpfEval → Lookup (List Bytes) × SpfEval
direct_txt r name e = (r.txt name, e)

unfoldable pub direct_eval : Resolver → Bytes → Option Ip → SpfResult × SpfEval
direct_eval r domain observed =
    check_host r (direct_txt r) (suc max_spf_depth) true observed domain new_eval

-- The state without the remembered answers.
abbrev pub forget : SpfEval → SpfEval
forget e = record e { seen = [] }

-- What is remembered is what the DNS answers, in any spelling of the name.
record Remembers (r : Resolver) (seen : List (Bytes × Lookup (List Bytes))) : Type 0 where
  recalled :
      (name : Bytes) (answer : Lookup (List Bytes))
      → seen_answer (to_lower name) seen ≡ some answer
      → answer ≡ r.txt name

abbrev IsSame : {A : Type 0} → Resolver → A × SpfEval → A × SpfEval → Type 0
IsSame r x y = (x.0 ≡ y.0) × (forget x.1 ≡ y.1) × Remembers r x.1.seen

module _ (r : Resolver)
    (insensitive : (m n : Bytes) → to_lower m ≡ to_lower n → r.txt m ≡ r.txt n) where
  remember :
      (name : Bytes) (seen : List (Bytes × Lookup (List Bytes)))
      → Remembers r seen
      → Remembers r ((to_lower name, r.txt name) ∷ seen)
  remember name seen m = record {
    recalled = λ n answer h. elim (Bool-cases (bytes_eq (to_lower name) (to_lower n))) [
      | inl e ↦
          let same = insensitive name n ((bytes_eq_iff (to_lower name) (to_lower n)).0 e) in
          ground arith
      | inr e ↦ m.recalled n answer (ground arith)
    ];
  }

  memo_txt-IsSame :
      (name : Bytes) (e : SpfEval)
      → Remembers r e.seen
      → IsSame r (memo_txt r name e) (direct_txt r name (forget e))
  unfolding memo_txt direct_txt
  memo_txt-IsSame name e m = elim (Option-cases (seen_answer (to_lower name) e.seen)) [
    | inl h ↦ ground (arith, remember name e.seen m)
    | inr (answer, h) ↦ ground (arith, m.recalled name answer h)
  ]

  module _ (inner inner' : Evaluation) (top : Bool) (domain : Bytes) (observed : Option Ip)
      (same : (d : Bytes) (e : SpfEval)
        → Remembers r e.seen
        → IsSame r (inner d e) (inner' d (forget e))) where
    match_term-IsSame :
        (t : SpfTerm) (e : SpfEval)
        → Remembers r e.seen
        → IsSame r
            (match_term r (memo_txt r) inner top domain observed t e)
            (match_term r (direct_txt r) inner' top domain observed t (forget e))
    unfolding match_term
    match_term-IsSame t e m = ground (arith, same t.value (charged e))

    after_redirect-forget :
        (redirect : Bytes) (res : SpfResult) (e : SpfEval)
        → Remembers r e.seen
        → IsSame r (after_redirect redirect res e) (after_redirect redirect res (forget e))
    unfolding after_redirect
    after_redirect-forget redirect spf_none e m = (refl, refl, m)
    after_redirect-forget redirect spf_pass e m = (refl, refl, m)
    after_redirect-forget redirect spf_fail e m = (refl, refl, m)
    after_redirect-forget redirect spf_softfail e m = (refl, refl, m)
    after_redirect-forget redirect spf_neutral e m = (refl, refl, m)
    after_redirect-forget redirect spf_permerror e m = (refl, refl, m)
    after_redirect-forget redirect spf_temperror e m = (refl, refl, m)

    follow_redirect-IsSame :
        (redirect : Bytes) (e : SpfEval)
        → Remembers r e.seen
        → IsSame r
            (follow_redirect r (memo_txt r) inner top domain observed redirect e)
            (follow_redirect r (direct_txt r) inner' top domain observed redirect (forget e))
    unfolding follow_redirect
    follow_redirect-IsSame redirect e m = ground (
      arith,
      same redirect (redirected top e),
      after_redirect-forget redirect (inner redirect (redirected top e)).0
          (inner redirect (redirected top e)).1,
    )

    run_terms-IsSame :
        (ts : List SpfTerm) (redirect : Bytes) (e : SpfEval)
        → Remembers r e.seen
        → IsSame r
            (run_terms r (memo_txt r) inner top domain observed ts redirect e)
            (run_terms r (direct_txt r) inner' top domain observed ts redirect (forget e))
    unfolding run_terms noted
    run_terms-IsSame [] redirect e m = follow_redirect-IsSame redirect e m
    run_terms-IsSame (t ∷ ts) redirect e m = ground (
      arith,
      run_terms-IsSame ts t.value e m,
      run_terms-IsSame ts redirect e m,
      match_term-IsSame t (begun top t e) m,
      run_terms-IsSame ts redirect
          (match_term r (memo_txt r) inner top domain observed t (begun top t e)).1,
    )

    run_parsed-IsSame :
        (terms : Option (List SpfTerm)) (e : SpfEval)
        → Remembers r e.seen
        → IsSame r
            (run_parsed r (memo_txt r) inner top domain observed terms e)
            (run_parsed r (direct_txt r) inner' top domain observed terms (forget e))
    unfolding run_parsed
    run_parsed-IsSame none e m = (refl, refl, m)
    run_parsed-IsSame (some ts) e m = run_terms-IsSame ts [] e m

    check_records-IsSame :
        (texts : List Bytes) (e : SpfEval)
        → Remembers r e.seen
        → IsSame r
            (check_records r (memo_txt r) inner top domain observed texts e)
            (check_records r (direct_txt r) inner' top domain observed texts (forget e))
    unfolding check_records
    check_records-IsSame [] e m = (refl, refl, m)
    check_records-IsSame (text ∷ []) e m = run_parsed-IsSame (parse_spf text) _ m
    check_records-IsSame (text ∷ other ∷ others) e m = (refl, refl, m)

    check_answer-IsSame :
        (answer : Lookup (List Bytes)) (e : SpfEval)
        → Remembers r e.seen
        → IsSame r
            (check_answer r (memo_txt r) inner top domain observed answer e)
            (check_answer r (direct_txt r) inner' top domain observed answer (forget e))
    unfolding check_answer
    check_answer-IsSame no_record e m = (refl, refl, m)
    check_answer-IsSame failed e m = (refl, refl, m)
    check_answer-IsSame (found txts) e m = check_records-IsSame (select is_spf_record txts) e m

  check_host-IsSame :
      (levels : ℕ) (top : Bool) (observed : Option Ip) (domain : Bytes) (e : SpfEval)
      → Remembers r e.seen
      → IsSame r
          (check_host r (memo_txt r) levels top observed domain e)
          (check_host r (direct_txt r) levels top observed domain (forget e))
  unfolding check_host
  check_host-IsSame zero top observed domain e m = (refl, refl, m)
  check_host-IsSame (suc levels) top observed domain e m =
      let asked = memo_txt-IsSame domain e m in
      let run =
        check_answer-IsSame (check_host r (memo_txt r) levels false observed)
          (check_host r (direct_txt r) levels false observed) top domain observed
          (λ d e' m'. check_host-IsSame levels false observed d e' m') (memo_txt r domain e).0
          (memo_txt r domain e).1 asked.2 in
      subst
        (λ (p : Lookup (List Bytes) × SpfEval).
          IsSame r
            (check_answer r (memo_txt r) (check_host r (memo_txt r) levels false observed) top
              domain observed (memo_txt r domain e).0 (memo_txt r domain e).1)
            (check_answer r (direct_txt r) (check_host r (direct_txt r) levels false observed) top
              domain observed p.0 p.1))
        (λ i. (asked.0 i, asked.1 i)) run

  -- Where the DNS answers TXT queries without regard to case, the remembered answers change nothing:
  -- the evaluation has the result, the lookups charged and the details of one that asks the DNS anew
  -- for each record.
  pub memo_is_transparent :
      (domain : Bytes) (observed : Option Ip)
      → let x = spf_eval r domain observed in
        let y = direct_eval r domain observed in (x.0 ≡ y.0) × (forget x.1 ≡ y.1)
  unfolding spf_eval direct_eval
  memo_is_transparent domain observed =
      let s =
        check_host-IsSame (suc max_spf_depth) true observed domain new_eval
          (record { recalled = λ name answer h. absurd (ground arith) }) in
      (s.0, s.1)
