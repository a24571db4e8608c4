-- ===== src/Errors.antt =====
-- Go errors: fmt.Errorf with its format, an error wrapped by `%w`, and internal/domain/errors.go.
-- The values that a format prints are left out.
use exchange_data_importer.Prelude.{String, ◌≡◌, refl, ◌⊎◌, inl, inr}

pub data Error : Type 0 where
  errorf : String → Error
  wrapped : String → Error → Error
  -- `ValidationError{Field, Err}`.
  validation_error : String → Error → Error

-- A value and an error: `ok a` is `(a, nil)`, `err e` the zero value or a partial one with `e`.
pub data Result {ℓ} (A : Type ℓ) : Type ℓ where
  ok : A → Result A
  err : Error → Result A

infixl 5 ◌>>=◌
abbrev pub ◌>>=◌ {ℓ κ} : {A : Type ℓ} {B : Type κ} → Result A → (A → Result B) → Result B
ok a >>= f = f a
err e >>= f = err e

-- To split on a result and keep the equation.
pub Result-cases :
    {A : Type 0} (r : Result A) → ((a : A) × (r ≡ ok a)) ⊎ ((e : Error) × (r ≡ err e))
Result-cases (ok a) = inl (a, refl)
Result-cases (err e) = inr (e, refl)

-- A chain that succeeds: its first step did, and so did the rest of it.
pub bind_ok :
    {A B : Type 0} (x : Result A) (g : A → Result B) {b : B}
    → (x >>= g) ≡ ok b
    → (a : A) × (x ≡ ok a) × (g a ≡ ok b)
bind_ok (ok a) g h = (a, refl, h)
bind_ok (err e) g h = cc
