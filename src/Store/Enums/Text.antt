-- ===== src/Store/Enums/Text.antt =====
-- store/enums.go: `enumText` and `enumParse`, over the code of a value and the table of names.
use sendplane.Common.{
  ℕ, zero, suc, ◌+◌, ◌≤◌, ◌≡◌, String, List, [], ◌∷◌, Option, none, some, arith, count, str_eq,
  eq_iff, if◌then◌else◌, ℤ, pos, negsuc, Bool-cases, Option-cases, inl, inr, ◌↔◌,
}
use sendplane.Store.Errors.{Result, StoreError, ok, err}

abbrev get_elem? : List String → ℕ → Option String
get_elem? [] i = none
get_elem? (x ∷ xs) zero = some x
get_elem? (x ∷ xs) (suc i) = get_elem? xs i

-- `names[i]` behind the range check.
unfoldable pub enum_text : ℤ → List String → Result String
enum_text (negsuc n) names = err StoreError.err_invalid
enum_text (pos i) names = elim (get_elem? names i) [
  | none ↦ err StoreError.err_invalid
  | some s ↦ ok s
]

-- The loop of `enumParse`; `i` is the index of the first name left.
enum_parse_from : String → List String → ℕ → Result ℤ
enum_parse_from s [] i = err StoreError.err_invalid
enum_parse_from s (n ∷ names) i = if str_eq n s then ok (pos i) else enum_parse_from s names (suc i)

unfoldable pub enum_parse : String → List String → Result ℤ
unfolding enum_parse_from
enum_parse s names = enum_parse_from s names 0

count_of_get_elem :
    (names : List String) (i : ℕ) (s : String) → get_elem? names i ≡ some s → 1 ≤ count s names
count_of_get_elem [] i s h = absurd (ground arith)
count_of_get_elem (n ∷ names) zero s h = ground (arith, eq_iff n s)
count_of_get_elem (n ∷ names) (suc i) s h = omega (arith, count_of_get_elem names i s h)

enum_parse_from_index :
    (names : List String) (k i : ℕ) (s : String)
    → get_elem? names i ≡ some s
    → count s names ≤ 1
    → enum_parse_from s names k ≡ ok (pos (k + i))
unfolding enum_parse_from
enum_parse_from_index [] k i s h d = absurd (ground arith)
enum_parse_from_index (n ∷ names) k zero s h d = ground (arith, eq_iff n s)
enum_parse_from_index (n ∷ names) k (suc i) s h d =
    ground (arith, count_of_get_elem names i s h, enum_parse_from_index names (suc k) i s h)

get_elem_of_parse :
    (names : List String) (k : ℕ) (s : String) (v : ℤ)
    → enum_parse_from s names k ≡ ok v
    → (i : ℕ) × (v ≡ pos (k + i)) × (get_elem? names i ≡ some s)
unfolding enum_parse_from
get_elem_of_parse [] k s v h = absurd (cc)
get_elem_of_parse (n ∷ names) k s v h = elim (Bool-cases (str_eq n s)) [
  | inl e ↦ (0, ground arith, ground (arith, eq_iff n s))
  | inr e ↦
      let (i, p, q) = get_elem_of_parse names (suc k) s v (ground arith) in (suc i, ground arith, q)
]

-- Over a table that names no two values alike, marshalling a value and parsing the text are
-- inverse: a text parses to a value exactly when the value marshals to the text.
enum_parse-enum_text :
    (names : List String) (s : String) (v : ℤ)
    → count s names ≤ 1
    → (enum_parse s names ≡ ok v) ↔ (enum_text v names ≡ ok s)
unfolding enum_parse enum_text
enum_parse-enum_text names s v d = (there v, back v)
  where
    there : (w : ℤ) → enum_parse_from s names 0 ≡ ok w → enum_text w names ≡ ok s
    there w h = let (i, p, q) = get_elem_of_parse names 0 s w h in ground arith

    back : (w : ℤ) → enum_text w names ≡ ok s → enum_parse_from s names 0 ≡ ok w
    back (negsuc n) h = absurd (cc)
    back (pos i) h = elim (Option-cases (get_elem? names i)) [
      | inl e ↦ absurd (ground arith)
      | inr (t, e) ↦ ground (arith, enum_parse_from_index names 0 i s)
    ]
