-- ===== src/Float.antt =====
-- Go's float64, as far as scores, weights and confidences use it: exact small integers, the
-- arithmetic, the comparisons and the tests of package math. IEEE 754 arithmetic is not rebuilt here:
-- code is generic in it, and theorems take the documented laws that they need.
pub mod Fixed
use hemera.Base.{ℕ, ◌≤◌, ◌≡◌, Bool, true, false, not, ◌||◌, leb, ◌⊎◌}

pub record Float64 (F : Type 0) : Type 0 where
  pub of_ℕ : ℕ → F
  pub add : F → F → F
  pub sub : F → F → F
  pub mul : F → F → F
  pub neg : F → F
  pub le : F → F → Bool
  pub lt : F → F → Bool
  pub is_nan : F → Bool
  pub is_inf : F → Bool

-- a <= b
infix 4 ◌≼◌
abbrev pub ◌≼◌ : {F : Type 0} ⦃fl : Float64 F⦄ → F → F → Type 0
◌≼◌ ⦃fl⦄ a b = fl.le a b ≡ true

-- a != b, which holds of NaN; `==` is `<=` both ways
abbrev pub float_ne : {F : Type 0} ⦃fl : Float64 F⦄ → F → F → Bool
float_ne ⦃fl⦄ a b = not (fl.le a b) || not (fl.le b a)

-- Comparison in IEEE 754: a total order away from NaN, false at NaN, and the integers from 0 to 100
-- are exact.
pub record IsOrdered (F : Type 0) ⦃fl : Float64 F⦄ : Type 0 where
  pub le_refl : (a : F) → fl.is_nan a ≡ false → a ≼ a
  pub le_trans : (a b c : F) → a ≼ b → b ≼ c → a ≼ c
  pub le_total : (a b : F) → fl.is_nan a ≡ false → fl.is_nan b ≡ false → (a ≼ b) ⊎ (b ≼ a)
  pub le_number : (a b : F) → a ≼ b → (fl.is_nan a ≡ false) × (fl.is_nan b ≡ false)
  pub lt-eq-not-le :
      (a b : F) → fl.is_nan a ≡ false → fl.is_nan b ≡ false → fl.lt a b ≡ not (fl.le b a)
  pub lt_number : (a b : F) → fl.lt a b ≡ true → (fl.is_nan a ≡ false) × (fl.is_nan b ≡ false)
  pub of_ℕ_number : (n : ℕ) → n ≤ 100 → fl.is_nan (fl.of_ℕ n) ≡ false
  pub of_ℕ_le : (m n : ℕ) → m ≤ 100 → n ≤ 100 → fl.le (fl.of_ℕ m) (fl.of_ℕ n) ≡ leb m n
