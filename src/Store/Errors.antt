-- ===== src/Store/Errors.antt =====
-- store/errors.go: the sentinel errors of the repositories, and a result that carries one.
use sendplane.Common.{◌≡◌, refl, ◌⊎◌, inl, inr, Bool, true, false}

pub data StoreError : Type 0 where
  err_not_found err_conflict err_invalid err_lease_lost err_read_only : StoreError
  -- memstore.errClosed
  err_closed : StoreError

pub data Result {ℓ} (A : Type ℓ) : Type ℓ where
  ok : A → Result A
  err : StoreError → Result A

-- `if err := first; err != nil { return err }`, and the rest of the function.
infixl 5 ◌>>◌
abbrev pub ◌>>◌ {ℓ} : {A : Type ℓ} → Result (Unit {0}) → Result A → Result A
err failure >> rest = err failure
ok u >> rest = rest

-- The same for a call that also returns a value.
infixl 5 ◌>>=◌
abbrev pub ◌>>=◌ {ℓ κ} : {A : Type ℓ} {B : Type κ} → Result A → (A → Result B) → Result B
err failure >>= rest = err failure
ok value >>= rest = rest value

-- `if bad { return err }`
abbrev pub refuse_if : Bool → StoreError → Result (Unit {0})
refuse_if true e = err e
refuse_if false e = ok tt

-- To split on a computed result and keep the equation.
pub Result-cases :
    {A : Type 0} (r : Result A) → ((e : StoreError) × (r ≡ err e)) ⊎ ((a : A) × (r ≡ ok a))
Result-cases (ok a) = inr (a, refl)
Result-cases (err e) = inl (e, refl)
