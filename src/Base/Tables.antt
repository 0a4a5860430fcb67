-- ===== src/Base/Tables.antt =====
-- Go maps with string keys, as association lists. `lookup` is the two-valued read `v, ok := m[k]`,
-- `put` the assignment `m[k] = v`, `has` the test of a set `map[string]struct{}`.
use mathlib.Core.Path.{◌≡◌, refl}
use mathlib.Core.Bool.{Bool, true, false, ◌||◌}
use mathlib.Core.Option.{Option, none, some}
use mathlib.Core.List.{List, [], ◌∷◌}
use mathlib.Core.Logic.{inl, inr}
use native.Mathlib.Omega.{arith}
use hemera.Base.Tests.{if◌then◌else◌, Bool-cases}
use hemera.Base.Strings.{Bytes, bytes_eq, bytes_eq_iff, bytes_eq→eq}
use hemera.Base.Lists.{In}

abbrev pub Table {ℓ} : Type ℓ → Type ℓ
Table V = List (Bytes × V)

module _ {ℓ} {V : Type ℓ} where
  unfoldable pub lookup : Bytes → Table V → Option V
  lookup k [] = none
  lookup k ((j, v) ∷ m) = if bytes_eq j k then some v else lookup k m

  unfoldable pub put : Bytes → V → Table V → Table V
  put k v [] = (k, v) ∷ []
  put k v ((j, w) ∷ m) = if bytes_eq j k then (j, v) ∷ m else (j, w) ∷ put k v m

  -- delete(m, k)
  unfoldable pub delete_key : Bytes → Table V → Table V
  delete_key k [] = []
  delete_key k ((j, v) ∷ m) = if bytes_eq j k then delete_key k m else (j, v) ∷ delete_key k m

  pub lookup-put :
      (k j : Bytes) (v : V) (m : Table V)
      → lookup j (put k v m) ≡ (if bytes_eq k j then some v else lookup j m)
  unfolding lookup put
  lookup-put k j v [] = refl
  lookup-put k j v ((i, w) ∷ m) =
      ground (arith, bytes_eq_iff i k, bytes_eq_iff i j, bytes_eq_iff k j, lookup-put k j v m)

-- A read of an absent key gives the zero value.
abbrev pub or_zero {ℓ} : {V : Type ℓ} → V → Option V → V
or_zero z none = z
or_zero z (some v) = v

-- A set of strings, as the list of its members.
unfoldable pub has : Bytes → List Bytes → Bool
has k [] = false
has k (j ∷ s) = bytes_eq j k || has k s

pub has→In : (k : Bytes) (s : List Bytes) → has k s ≡ true → In k s
unfolding has
has→In k (j ∷ s) h = elim (Bool-cases (bytes_eq j k)) [
  | inl e ↦ inl (bytes_eq→eq j k e)
  | inr e ↦ inr (has→In k s (rw e at h))
]
has→In k [] h = cc

pub In→has : (k : Bytes) (s : List Bytes) → In k s → has k s ≡ true
unfolding has
In→has k [] i = absurd i
In→has k (j ∷ s) (inl e) = ground (arith, bytes_eq_iff j k)
In→has k (j ∷ s) (inr i) = ground (arith, In→has k s i)
