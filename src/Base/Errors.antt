-- ===== src/Base/Errors.antt =====
-- A value or an error: Go's `(T, error)`, where the caller reads the value only if there is no error.
use mathlib.Core.Path.{◌≡◌, refl, ap}
use mathlib.Core.Logic.{◌⊎◌, inl, inr}

pub data Result (E A : Type 0) : Type 0 where
  ok : A → Result E A
  err : E → Result E A

infixl 5 ◌>>=◌
abbrev pub ◌>>=◌ : {E A B : Type 0} → Result E A → (A → Result E B) → Result E B
ok a >>= f = f a
err e >>= f = err e

-- return fmt.Errorf("…: %w", err)
abbrev pub wrap_error : {E D A : Type 0} → (E → D) → Result E A → Result D A
wrap_error f (ok a) = ok a
wrap_error f (err e) = err (f e)

pub Result-cases :
    {E A : Type 0} (r : Result E A) → ((a : A) × (r ≡ ok a)) ⊎ ((e : E) × (r ≡ err e))
Result-cases (ok a) = inl (a, refl)
Result-cases (err e) = inr (e, refl)

pub ok_injective : {E A : Type 0} {a b : A} → ◌≡◌ {A = Result E A} (ok a) (ok b) → a ≡ b
ok_injective h = cc

-- A chain that ends well had a first value, and went on well from it.
pub >>=-eq-ok :
    {E A B : Type 0} {y : B} (r : Result E A) (next : A → Result E B)
    → (r >>= next) ≡ ok y
    → (x : A) × (r ≡ ok x) × (next x ≡ ok y)
>>=-eq-ok (err e) next h = cc
>>=-eq-ok (ok x) next h = (x, refl, h)

pub wrap_error-ok :
    {E D A : Type 0} (f : E → D) (r : Result E A) {a : A} → wrap_error f r ≡ ok a → r ≡ ok a
wrap_error-ok f (ok x) h = ap ok (ok_injective h)
wrap_error-ok f (err e) h = cc
