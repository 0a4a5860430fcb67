-- ===== src/Float/Fixed.antt =====
-- A concrete arithmetic that meets the laws of `IsOrdered`: signed hundredths, and a NaN. Tests run
-- on it, and it shows that the laws can hold.
use hemera.Base.{ℕ, ◌+◌, ◌-◌, ◌*◌, ◌/◌, Bool, true, false, leb, ltb, if◌then◌else◌, arith}
use hemera.Float.{Float64, IsOrdered}

-- `minus n` is -(n + 1) hundredths.
pub data Fixed : Type 0 where
  nan : Fixed
  plus : ℕ → Fixed
  minus : ℕ → Fixed

-- (a - b) hundredths
abbrev difference : ℕ → ℕ → Fixed
difference a b = if leb b a then plus (a - b) else minus (b - a - 1)

abbrev negate : Fixed → Fixed
negate nan = nan
negate (plus a) = difference 0 a
negate (minus a) = plus (a + 1)

abbrev sum : Fixed → Fixed → Fixed
sum (plus a) (plus b) = plus (a + b)
sum (plus a) (minus b) = difference a (b + 1)
sum (minus a) (plus b) = difference b (a + 1)
sum (minus a) (minus b) = minus (a + b + 1)
sum _ _ = nan

abbrev product : Fixed → Fixed → Fixed
product (plus a) (plus b) = plus (a * b / 100)
product (plus a) (minus b) = difference 0 (a * (b + 1) / 100)
product (minus a) (plus b) = difference 0 ((a + 1) * b / 100)
product (minus a) (minus b) = plus ((a + 1) * (b + 1) / 100)
product _ _ = nan

abbrev at_most : Fixed → Fixed → Bool
at_most (plus a) (plus b) = leb a b
at_most (minus a) (plus b) = true
at_most (minus a) (minus b) = leb b a
at_most _ _ = false

abbrev below : Fixed → Fixed → Bool
below (plus a) (plus b) = ltb a b
below (minus a) (plus b) = true
below (minus a) (minus b) = ltb b a
below _ _ = false

abbrev is_nan : Fixed → Bool
is_nan nan = true
is_nan _ = false

instance abbrev pub fixed_float : Float64 Fixed
fixed_float = record {
  of_ℕ = λ n. plus (n * 100);
  add = sum;
  sub = λ a b. sum a (negate b);
  mul = product;
  neg = negate;
  le = at_most;
  lt = below;
  is_nan = is_nan;
  is_inf = λ _. false;
}

pub Fixed-IsOrdered : IsOrdered Fixed
Fixed-IsOrdered = ground arith
