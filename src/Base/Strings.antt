-- ===== src/Base/Strings.antt =====
-- Go strings: sequences of bytes, with the operations of Go's `strings` package that compare them.
use Prim.Native.Nat.{ℕ, ◌-◌}
use Prim.Native.Char.{code}
use Prim.Native.String.{String}
use mathlib.Core.Path.{◌≡◌, refl}
use mathlib.Core.Logic.{◌↔◌}
use mathlib.Core.Bool.{Bool, true, false, ◌&&◌, ◌||◌}
use mathlib.Core.List.{List, [], ◌∷◌}
use native.Mathlib.Omega.{arith}
use hemera.Base.Tests.{ltb, leb, ◌==◌}
use hemera.Base.Lists.{length, drop}

abbrev pub Bytes : Type 0
Bytes = List ℕ

-- The bytes of an ASCII literal.
abbrev pub bytes : String → Bytes
bytes String.[] = []
bytes (String.◌∷◌ c s) = code c ∷ bytes s

-- s == t
unfoldable pub bytes_eq : Bytes → Bytes → Bool
bytes_eq [] [] = true
bytes_eq (a ∷ s) (b ∷ t) = (a == b) && bytes_eq s t
bytes_eq _ _ = false

pub bytes_eq→eq : (s t : Bytes) → bytes_eq s t ≡ true → s ≡ t
unfolding bytes_eq
bytes_eq→eq [] [] h = refl
bytes_eq→eq (a ∷ s) (b ∷ t) h = ground (arith, bytes_eq→eq s t)
bytes_eq→eq (a ∷ s) [] h = ground arith
bytes_eq→eq [] (b ∷ t) h = ground arith

pub bytes_eq_refl : (s : Bytes) → bytes_eq s s ≡ true
unfolding bytes_eq
bytes_eq_refl [] = refl
bytes_eq_refl (a ∷ s) = ground (arith, bytes_eq_refl s)

pub bytes_eq_iff : (s t : Bytes) → (bytes_eq s t ≡ true) ↔ (s ≡ t)
bytes_eq_iff s t = (bytes_eq→eq s t, λ e. rw e (bytes_eq_refl t))

-- s < t, which compares bytes
unfoldable pub bytes_lt : Bytes → Bytes → Bool
bytes_lt s [] = false
bytes_lt [] (b ∷ t) = true
bytes_lt (a ∷ s) (b ∷ t) = ltb a b || ((a == b) && bytes_lt s t)

-- strings.HasPrefix
unfoldable pub has_prefix : Bytes → Bytes → Bool
has_prefix s [] = true
has_prefix [] (b ∷ t) = false
has_prefix (a ∷ s) (b ∷ t) = (a == b) && has_prefix s t

-- strings.HasSuffix
unfoldable pub has_suffix : Bytes → Bytes → Bool
unfolding bytes_eq
has_suffix s t = leb (length t) (length s) && bytes_eq (drop (length s - length t) s) t

-- strings.Contains
unfoldable pub contains : Bytes → Bytes → Bool
unfolding has_prefix
contains [] t = has_prefix [] t
contains (a ∷ s) t = has_prefix (a ∷ s) t || contains s t
