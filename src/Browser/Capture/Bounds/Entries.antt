-- ===== src/Browser/Capture/Bounds/Entries.antt =====
-- Lists without repetitions, and the size and the members of a map after an assignment or a deletion, as
-- the collector of internal/browser/capture.go changes its own.
use hemera.Base.{
  delete_key, ℕ, suc, ◌≤◌, leb, ◌≡◌, inl, inr, false, Bytes, bytes_eq, [], ◌∷◌, length, All, Table,
  put, Bool-cases, arith,
}

module _ {V : Type 0} where
  pub length-put_new : (k : Bytes) (v : V) (t : Table V) → length (put k v t) ≤ suc (length t)
  unfolding put
  length-put_new k v [] = omega arith
  length-put_new k v ((j, w) ∷ t) = ground (arith, length-put_new k v t)

  pub All-put :
      (P : Bytes × V → Type 0) (k : Bytes) (v : V) (t : Table V)
      → ((j : Bytes) → P (j, v))
      → All P t
      → All P (put k v t)
  unfolding put
  All-put P k v [] h a = (h k, tt)
  All-put P k v ((j, w) ∷ t) h (p, ps) = elim (Bool-cases (bytes_eq j k)) [
    | inl e ↦ rw e (h j, ps)
    | inr e ↦ rw e (p, All-put P k v t h ps)
  ]

  pub length-delete_key : (k : Bytes) (t : Table V) → length (delete_key k t) ≤ length t
  unfolding delete_key
  length-delete_key k [] = omega arith
  length-delete_key k ((j, v) ∷ t) = ground (arith, length-delete_key k t)

  pub All-delete_key :
      (P : Bytes × V → Type 0) (k : Bytes) (t : Table V) → All P t → All P (delete_key k t)
  unfolding delete_key
  All-delete_key P k [] h = tt
  All-delete_key P k ((j, v) ∷ t) (p, ps) = elim (Bool-cases (bytes_eq j k)) [
    | inl e ↦ rw e (All-delete_key P k t ps)
    | inr e ↦ rw e (p, All-delete_key P k t ps)
  ]

pub below : (n : ℕ) → leb 4096 n ≡ false → suc n ≤ 4096
below n h = ground arith
