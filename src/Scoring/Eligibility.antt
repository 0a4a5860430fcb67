-- ===== src/Scoring/Eligibility.antt =====
-- The closure `eligible` of scoreMatches: a depth-first walk over the dependencies of a rule, with a
-- memo table. `passes id` stands for the test of the rule's own match and score, `requires id` for
-- its dependencies; a walk that runs out of fuel gives none.
pub mod Correct
use hemera.Base.{
  ℕ, zero, suc, Bool, true, false, Bytes, Option, some, none, List, [], ◌∷◌, if◌then◌else◌, Table,
  lookup, put,
}

abbrev store : Bytes → Bool × Table Bool → Bool × Table Bool
store id (value, memo) = (value, put id value memo)

-- The loop over the dependencies, which stops at the first that is not eligible. `walk` is the
-- call of `eligible`.
abbrev pub all_eligible :
    (Bytes → Table Bool → Option (Bool × Table Bool))
    → List Bytes
    → Table Bool
    → Option (Bool × Table Bool)
all_eligible walk [] memo = some (true, memo)
all_eligible walk (d ∷ ds) memo = elim (walk d memo) [
  | none ↦ none
  | some (value, memo') ↦ if value then all_eligible walk ds memo' else some (false, memo')
]

abbrev pub remember : Bytes → Option (Bool × Table Bool) → Option (Bool × Table Bool)
remember id none = none
remember id (some r) = some (store id r)

module _ (passes : Bytes → Bool) (requires : Bytes → List Bytes) where
  unfoldable pub eligible : ℕ → Bytes → Table Bool → Option (Bool × Table Bool)
  eligible zero id memo = none
  eligible (suc fuel) id memo = elim (lookup id memo) [
    | some value ↦ some (value, memo)
    | none ↦
        if passes id
        then remember id (all_eligible (eligible fuel) (requires id) memo)
        else some (store id (false, memo))
  ]
