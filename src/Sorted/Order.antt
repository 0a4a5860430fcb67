-- ===== src/Sorted/Order.antt =====
-- The order of Go strings, and lists in that order.
use hemera.Base.{◌≡◌, ◌≢◌, true, false, Bytes, bytes_lt, List, [], ◌∷◌, All, arith}

pub bytes_lt_irrefl : (a : Bytes) → bytes_lt a a ≡ false
unfolding bytes_lt
bytes_lt_irrefl [] = ground arith
bytes_lt_irrefl (x ∷ a) = ground (arith, bytes_lt_irrefl a)

pub bytes_lt_trans :
    (a b c : Bytes) → bytes_lt a b ≡ true → bytes_lt b c ≡ true → bytes_lt a c ≡ true
unfolding bytes_lt
bytes_lt_trans a [] c h k = ground arith
bytes_lt_trans a (y ∷ b) [] h k = ground arith
bytes_lt_trans [] (y ∷ b) (z ∷ c) h k = ground arith
bytes_lt_trans (x ∷ a) (y ∷ b) (z ∷ c) h k = ground (arith, bytes_lt_trans a b c)

-- The order is total.
pub bytes_lt_total : (a b : Bytes) → bytes_lt a b ≡ false → a ≢ b → bytes_lt b a ≡ true
unfolding bytes_lt
bytes_lt_total [] [] h n = absurd (n (cc))
bytes_lt_total [] (y ∷ b) h n = ground arith
bytes_lt_total (x ∷ a) [] h n = ground arith
bytes_lt_total (x ∷ a) (y ∷ b) h n = ground (arith, bytes_lt_total a b)

pub bytes_lt_asymm : (a b : Bytes) → bytes_lt a b ≡ true → bytes_lt b a ≡ false
unfolding bytes_lt
bytes_lt_asymm a [] h = ground arith
bytes_lt_asymm [] (y ∷ b) h = ground arith
bytes_lt_asymm (x ∷ a) (y ∷ b) h = ground (arith, bytes_lt_asymm a b)

-- a ≤ b ≤ c
pub not_lt_trans :
    (a b c : Bytes) → bytes_lt b a ≡ false → bytes_lt c b ≡ false → bytes_lt c a ≡ false
unfolding bytes_lt
not_lt_trans [] b c h k = ground arith
not_lt_trans (x ∷ a) [] c h k = ground arith
not_lt_trans (x ∷ a) (y ∷ b) [] h k = ground arith
not_lt_trans (x ∷ a) (y ∷ b) (z ∷ c) h k = ground (arith, not_lt_trans a b c)

-- No member is below an earlier one.
abbrev pub IsSorted : List Bytes → Type 0
IsSorted [] = Unit
IsSorted (x ∷ xs) = All (λ y. bytes_lt y x ≡ false) xs × IsSorted xs

-- Each member is above all earlier ones.
abbrev pub IsAscending : List Bytes → Type 0
IsAscending [] = Unit
IsAscending (x ∷ xs) = All (λ y. bytes_lt x y ≡ true) xs × IsAscending xs
