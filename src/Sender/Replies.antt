-- ===== src/Sender/Replies.antt =====
-- The classes that a reply can get, from its code and its enhanced code.
use sendplane.Common.{
  ℕ, ◌≤◌, ◌≡◌, ◌≢◌, ◌⊎◌, inl, inr, ◌↔◌, Bool, true, false, ◌||◌, List, [], ◌∷◌, Option, none, some,
  arith, All, Bool-cases, Option-cases, Bytes, codes, has_prefix, to_lower,
}
use sendplane.Store.Enums.{ErrorClass}
use sendplane.Sender.Classify.{
  Rule, SmtpReply, SendError, rules, range_rule, rule_matches, has_any_prefix, first_match,
  enhanced_of, classify_network, classify_reply, classify,
}

-- Some rule of a list matches.
abbrev some_match : List Rule → ℕ → Bytes → Bytes → Bool
some_match [] code enhanced lower = false
some_match (r ∷ rs) code enhanced lower =
    rule_matches r code enhanced lower || some_match rs code enhanced lower

-- The class of the first match has what every matching rule's class has.
first_match_lem :
    (P : ErrorClass → Type 0) (rs : List Rule) (code : ℕ) (enhanced lower : Bytes)
    → All (λ r. rule_matches r code enhanced lower ≡ true → P r.class) rs
    → (some_match rs code enhanced lower ≡ true) ⊎ P ErrorClass.transient
    → P (first_match rs code enhanced lower).0
unfolding first_match
first_match_lem P [] code enhanced lower h (inl e) = absurd (ground arith)
first_match_lem P [] code enhanced lower h (inr p) = p
first_match_lem P (r ∷ rs) code enhanced lower h k =
    elim (Bool-cases (rule_matches r code enhanced lower)) [
      | inl hit ↦ rw hit (h.0 hit)
      | inr miss ↦ rw miss (
          first_match_lem P rs code enhanced lower h.1
            (elim k [ inl e ↦ inl (rw miss at e) | inr p ↦ inr p ]))
    ]

-- What the class of a hard reply is not.
abbrev pub IsFinal : ErrorClass → Type 0
IsFinal c = (c ≢ ErrorClass.none) × (c ≢ ErrorClass.transient) × (c ≢ ErrorClass.rate_limited)

-- What the class of a soft reply is not.
abbrev pub IsSoft : ErrorClass → Type 0
IsSoft c = (c ≢ ErrorClass.none) × (c ≢ ErrorClass.permanent) × (c ≢ ErrorClass.policy)

-- A text with a longer prefix has the shorter one.
has_prefix_two :
    (s ps : Bytes) (a b : ℕ) → has_prefix s (a ∷ b ∷ ps) ≡ true → has_prefix s (a ∷ b ∷ []) ≡ true
unfolding has_prefix
has_prefix_two [] ps a b h = absurd (ground arith)
has_prefix_two (c ∷ []) ps a b h = absurd (ground arith)
has_prefix_two (c ∷ d ∷ s) ps a b h = ground arith

module _ (code : ℕ) (enhanced lower : Bytes) where
  hard_rules :
      500 ≤ code
      → code ≤ 599
      → has_prefix enhanced (codes "4.") ≡ false
      → All (λ r. rule_matches r code enhanced lower ≡ true → IsFinal r.class) rules
  unfolding rules range_rule rule_matches has_any_prefix
  hard_rules lo hi soft = (
    (λ h. ground arith),
    (
      (λ h. ground arith),
      (
        (λ h. ground arith),
        (
          (λ h. ground arith),
          (
            (λ h. ground (
              arith,
              has_prefix_two enhanced (codes "7.0") 52 46,
              has_prefix_two enhanced (codes "7.28") 52 46,
              has_prefix_two enhanced (codes "2.1") 52 46,
            )),
            (
              (λ h. ground arith),
              ((λ h. ground arith), ((λ h. ground arith), ((λ h. ground arith), tt))),
            ),
          ),
        ),
      ),
    ),
  )

  permanent_matches :
      500 ≤ code
      → code ≤ 599
      → rule_matches
          (range_rule "permanent.5xx" 500 599 [] ErrorClass.permanent)
          code
          enhanced
          lower
        ≡ true
  unfolding rule_matches range_rule
  permanent_matches lo hi = ground arith

  transient_matches :
      400 ≤ code
      → code ≤ 499
      → rule_matches
          (range_rule "transient.4xx" 400 499 [] ErrorClass.transient)
          code
          enhanced
          lower
        ≡ true
  unfolding rule_matches range_rule
  transient_matches lo hi = ground arith

  hard_matches : 500 ≤ code → code ≤ 599 → some_match rules code enhanced lower ≡ true
  unfolding rules range_rule
  hard_matches lo hi = ground (arith, permanent_matches lo hi)

  IsSoft-rules :
      400 ≤ code
      → code ≤ 499
      → has_prefix enhanced (codes "5.") ≡ false
      → All (λ r. rule_matches r code enhanced lower ≡ true → IsSoft r.class) rules
  unfolding rules range_rule rule_matches has_any_prefix
  IsSoft-rules lo hi hard = (
    (λ h. ground arith),
    (
      (λ h. ground arith),
      (
        (λ h. ground arith),
        (
          (λ h. ground arith),
          (
            (λ h. ground arith),
            (
              (λ h. ground (arith, has_prefix_two enhanced (codes "7.") 53 46)),
              ((λ h. ground arith), ((λ h. ground arith), ((λ h. ground arith), tt))),
            ),
          ),
        ),
      ),
    ),
  )

-- A reply with a code from 500 to 599 whose enhanced code does not start with "4." is never
-- classed as a success, a transient failure or a rate limit, so it is not retried on the schedule.
pub hard_reply-IsFinal :
    (pe : SmtpReply)
    → 500 ≤ pe.code
    → pe.code ≤ 599
    → has_prefix (enhanced_of pe.msg) (codes "4.") ≡ false
    → IsFinal (classify_reply pe).class
unfolding classify_reply
hard_reply-IsFinal pe lo hi h =
    first_match_lem IsFinal rules pe.code (enhanced_of pe.msg) (to_lower pe.msg)
      (hard_rules pe.code (enhanced_of pe.msg) (to_lower pe.msg) lo hi h)
      (inl (hard_matches pe.code (enhanced_of pe.msg) (to_lower pe.msg) lo hi))

-- A reply with a code from 400 to 499 whose enhanced code does not start with "5." is never
-- classed as a success or as a failure that ends the delivery (permanent or policy).
pub transient_reply-IsSoft :
    (pe : SmtpReply)
    → 400 ≤ pe.code
    → pe.code ≤ 499
    → has_prefix (enhanced_of pe.msg) (codes "5.") ≡ false
    → IsSoft (classify_reply pe).class
unfolding classify_reply
transient_reply-IsSoft pe lo hi h =
    first_match_lem IsSoft rules pe.code (enhanced_of pe.msg) (to_lower pe.msg)
      (IsSoft-rules pe.code (enhanced_of pe.msg) (to_lower pe.msg) lo hi h) (inr (ground arith))

All-rules_fail :
    (code : ℕ) (enhanced lower : Bytes)
    → All (λ r. rule_matches r code enhanced lower ≡ true → r.class ≢ ErrorClass.none) rules
unfolding rules range_rule
All-rules_fail code enhanced lower = ground arith

reply_fails : (pe : SmtpReply) → (classify_reply pe).class ≢ ErrorClass.none
unfolding classify_reply
reply_fails pe =
    first_match_lem (λ c. c ≢ ErrorClass.none) rules pe.code (enhanced_of pe.msg) (to_lower pe.msg)
      (All-rules_fail pe.code (enhanced_of pe.msg) (to_lower pe.msg)) (inr (ground arith))

-- The class is `none` exactly for the nil error: no error is taken for a success.
pub classify_none : (e : Option SendError) → ((classify e).class ≡ ErrorClass.none) ↔ (e ≡ none)
unfolding classify classify_network
classify_none none = ground arith
classify_none (some e) = elim (Option-cases e.smtp) [
  | inl silent ↦ ground arith
  | inr (pe, replied) ↦ ground (arith, reply_fails pe)
]
