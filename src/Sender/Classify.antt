-- ===== src/Sender/Classify.antt =====
-- internal/sender/classify.go: the class of a failed send. A Go error is a record of what
-- `errors.As` and `errors.Is` find in its chain; a reply text is the list of its bytes (ASCII).
use sendplane.Common.{
  ℕ, Bool, true, false, ◌&&◌, ◌||◌, not, List, [], ◌∷◌, ◌++◌, Option, none, some, String, length,
  leb, ltb, ◌==◌, if◌then◌else◌, Bytes, codes, has_prefix, has_substring, to_lower, is_digit,
}
use sendplane.Store.Enums.{ErrorClass}

-- textproto.Error
pub record SmtpReply : Type 0 where
  pub code : ℕ
  pub msg : Bytes

-- `net_error` is the answer of `Timeout()` of the net.Error in the chain.
pub record SendError : Type 0 where
  pub certificate : Bool
  pub record_header : Bool
  pub unknown_authority : Bool
  pub hostname : Bool
  pub net_error : Option Bool
  pub eof : Bool
  pub unexpected_eof : Bool
  pub net_closed : Bool
  pub op_error : Bool
  pub smtp : Option SmtpReply
  pub text : Bytes

pub record Failure : Type 0 where
  pub class : ErrorClass
  pub code : ℕ
  pub enhanced : Bytes
  pub message : Bytes
  pub rule : String

pub record Rule : Type 0 where
  pub name : String
  pub reply_codes : List ℕ
  pub code_min : ℕ
  pub code_max : ℕ
  pub enhanced : List Bytes
  pub fragments : List Bytes
  pub class : ErrorClass

abbrev pub contains_int : List ℕ → ℕ → Bool
contains_int [] v = false
contains_int (x ∷ xs) v = x == v || contains_int xs v

unfoldable pub has_any_prefix : Bytes → List Bytes → Bool
has_any_prefix s [] = false
has_any_prefix s (p ∷ ps) = has_prefix s p || has_any_prefix s ps

unfoldable pub contains_any : Bytes → List Bytes → Bool
contains_any s [] = false
contains_any s (sub ∷ subs) = has_substring s sub || contains_any s subs

abbrev code_matches : Rule → ℕ → Bool
code_matches r code =
    if ltb 0 (length r.reply_codes)
    then contains_int r.reply_codes code
    else not (ltb 0 r.code_min && (ltb code r.code_min || ltb r.code_max code))

-- An empty text has no enhanced code.
abbrev enhanced_matches : Rule → Bytes → Bool
enhanced_matches r enhanced =
    if ltb 0 (length r.enhanced)
    then ltb 0 (length enhanced) && has_any_prefix enhanced r.enhanced
    else true

abbrev text_matches : Rule → Bytes → Bool
text_matches r lower = if ltb 0 (length r.fragments) then contains_any lower r.fragments else true

-- `rule.match`
unfoldable pub rule_matches : Rule → ℕ → Bytes → Bytes → Bool
rule_matches r code enhanced lower =
    code_matches r code && enhanced_matches r enhanced && text_matches r lower

codes_rule : String → List ℕ → List Bytes → ErrorClass → Rule
codes_rule name cs fragments class = record {
  name = name;
  reply_codes = cs;
  code_min = 0;
  code_max = 0;
  enhanced = [];
  fragments = fragments;
  class = class;
}

enhanced_rule : String → List Bytes → ErrorClass → Rule
enhanced_rule name prefixes class = record {
  name = name;
  reply_codes = [];
  code_min = 0;
  code_max = 0;
  enhanced = prefixes;
  fragments = [];
  class = class;
}

unfoldable pub range_rule : String → ℕ → ℕ → List Bytes → ErrorClass → Rule
range_rule name low high fragments class = record {
  name = name;
  reply_codes = [];
  code_min = low;
  code_max = high;
  enhanced = [];
  fragments = fragments;
  class = class;
}

-- The table, in its order: the first rule that matches wins.
unfoldable pub rules : List Rule
unfolding codes_rule enhanced_rule range_rule
rules =
    codes_rule "auth.code" (530 ∷ 534 ∷ 535 ∷ 538 ∷ []) [] ErrorClass.auth
    ∷ enhanced_rule "auth.enhanced" (codes "5.7.8" ∷ codes "5.7.9" ∷ codes "4.7.8" ∷ [])
        ErrorClass.auth
    ∷ codes_rule "ratelimit.421" (421 ∷ []) [] ErrorClass.rate_limited
    ∷ codes_rule "ratelimit.4xx.text" (450 ∷ 451 ∷ 452 ∷ [])
        (codes "rate"
          ∷ codes "too many"
          ∷ codes "too quickly"
          ∷ codes "throttl"
          ∷ codes "slow down"
          ∷ codes "deferred due to"
          ∷ [])
        ErrorClass.rate_limited
    ∷ enhanced_rule "ratelimit.enhanced" (codes "4.7.0" ∷ codes "4.7.28" ∷ codes "4.2.1" ∷ [])
        ErrorClass.rate_limited
    ∷ enhanced_rule "policy.enhanced" (codes "5.7." ∷ []) ErrorClass.policy
    ∷ range_rule "policy.text" 500 599
        (codes "spam"
          ∷ codes "blocked"
          ∷ codes "blacklist"
          ∷ codes "blocklist"
          ∷ codes "reputation"
          ∷ codes "policy"
          ∷ codes "abuse"
          ∷ [])
        ErrorClass.policy
    ∷ range_rule "permanent.5xx" 500 599 [] ErrorClass.permanent
    ∷ range_rule "transient.4xx" 400 499 [] ErrorClass.transient
    ∷ []

-- The text up to the first newline.
abbrev first_line : Bytes → Bytes
first_line [] = []
first_line (c ∷ s) = if c == 10 then [] else c ∷ first_line s

-- strings.TrimSpace, of ASCII: tab, newline, vertical tab, form feed, return and space.
abbrev is_space : ℕ → Bool
is_space c = leb 9 c && leb c 13 || c == 32

abbrev drop_spaces : Bytes → Bytes
drop_spaces [] = []
drop_spaces (c ∷ s) = if is_space c then drop_spaces s else c ∷ s

abbrev drop_trailing_spaces : Bytes → Bytes
drop_trailing_spaces [] = []
drop_trailing_spaces (c ∷ s) =
    let rest = drop_trailing_spaces s in
    if ltb 0 (length rest) then c ∷ rest else if is_space c then [] else c ∷ []

-- The digits at the front of a text, and the rest.
abbrev pub span_digits : Bytes → Bytes × Bytes
span_digits [] = ([], [])
span_digits (c ∷ s) =
    let rest = span_digits s in if is_digit c then (c ∷ rest.0, rest.1) else ([], c ∷ s)

-- A letter or an underscore goes on the word that the digits are in.
abbrev continues_word : Bytes → Bool
continues_word [] = false
continues_word (c ∷ s) = leb 65 c && leb c 90 || leb 97 c && leb c 122 || c == 95

abbrev one_to_three : ℕ → Bool
one_to_three n = leb 1 n && leb n 3

-- The last group: one to three digits, then a word boundary.
abbrev detail_group : Bytes → Bytes
detail_group s =
    let d = span_digits s in
    if one_to_three (length d.0) && not (continues_word d.1) then d.0 else []

abbrev subject_group : Bytes → Bytes
subject_group s =
    let d = span_digits s in
    if one_to_three (length d.0)
    then elim d.1 [
      | [] ↦ []
      | c ∷ rest ↦
          let detail = detail_group rest in
          if c == 46 && ltb 0 (length detail) then d.0 ++ (46 ∷ detail) else []
    ]
    else []

-- `enhancedRE.FindString`: the empty text when nothing matches.
unfoldable pub find_enhanced : Bytes → Bytes
find_enhanced [] = []
find_enhanced (c ∷ []) = []
find_enhanced (c ∷ dot ∷ s) =
    let tail = subject_group s in
    if (c == 50 || c == 52 || c == 53) && dot == 46 && ltb 0 (length tail)
    then c ∷ 46 ∷ tail
    else []

unfoldable pub enhanced_of : Bytes → Bytes
enhanced_of msg = find_enhanced (drop_trailing_spaces (drop_spaces (first_line msg)))

network_failure : ErrorClass → String → SendError → Failure
network_failure class rule e = record {
  class = class;
  code = 0;
  enhanced = [];
  message = e.text;
  rule = rule;
}

unfoldable pub classify_network : SendError → Option Failure
unfolding network_failure
classify_network e =
    if e.certificate || e.record_header || e.unknown_authority || e.hostname
    then some (network_failure ErrorClass.auth "auth.tls" e)
    else if elim e.net_error [ none ↦ false | some timeout ↦ timeout ]
    then some (network_failure ErrorClass.transient "transient.timeout" e)
    else if e.eof || e.unexpected_eof || e.net_closed
    then some (network_failure ErrorClass.transient "transient.connection" e)
    else if e.op_error
    then some (network_failure ErrorClass.transient "transient.connection" e)
    else none

-- The loop over the table: the class and the name of the first rule that matches.
unfoldable pub first_match : List Rule → ℕ → Bytes → Bytes → ErrorClass × String
first_match [] code enhanced lower = (ErrorClass.transient, "transient.default")
first_match (r ∷ rs) code enhanced lower =
    if rule_matches r code enhanced lower
    then (r.class, r.name)
    else first_match rs code enhanced lower

unfoldable pub classify_reply : SmtpReply → Failure
classify_reply pe =
    let enhanced = enhanced_of pe.msg in
    let hit = first_match rules pe.code enhanced (to_lower pe.msg) in
    record { class = hit.0; code = pe.code; enhanced = enhanced; message = pe.msg; rule = hit.1 }

unfoldable pub classify : Option SendError → Failure
unfolding network_failure
classify none = record { class = ErrorClass.none; code = 0; enhanced = []; message = []; rule = "" }
classify (some e) = elim (classify_network e) [
  | some f ↦ f
  | none ↦ elim e.smtp [
    | none ↦ network_failure ErrorClass.transient "transient.unknown" e
    | some pe ↦ classify_reply pe
  ]
]
