-- ===== src/Base/Chains.antt =====
-- Bounded chains in a graph that gives the successors of each name.
use Prim.Native.Nat.{ℕ, zero, suc, ◌≤◌}
use mathlib.Core.List.{List}
use native.Mathlib.Omega.{arith}
use hemera.Base.Strings.{Bytes}
use hemera.Base.Lists.{In}

module _ (requires : Bytes → List Bytes) where
  -- No chain of dependencies from `id` has more than `n` rules.
  abbrev pub Within : ℕ → Bytes → Type 0
  Within zero id = ⊥
  Within (suc n) id = (d : Bytes) → In d (requires id) → Within n d

  pub Within-mono : (m n : ℕ) (id : Bytes) → m ≤ n → Within m id → Within n id
  Within-mono zero n id le h = absurd h
  Within-mono (suc m) zero id le h = absurd (omega arith)
  Within-mono (suc m) (suc n) id le h = λ d i. Within-mono m n d (omega arith) (h d i)
