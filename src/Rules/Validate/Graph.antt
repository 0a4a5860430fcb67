-- ===== src/Rules/Validate/Graph.antt =====
-- validateDependencyGraph of internal/rules/schema.go: a depth-first walk that marks a rule while it
-- is on the stack, on fuel.
pub mod Acyclic
use hemera.Base.{
  ℕ, zero, suc, Bytes, Option, some, none, Result, ok, err, ◌>>=◌, List, [], ◌∷◌, Table, lookup,
  put,
}
use hemera.Rules.Validate.{SchemaError, dependency_cycle, no_fuel}

-- An absent entry is `unvisited`.
pub data Visit : Type 0 where
  visiting visited : Visit

unfoldable pub visit_all :
    (Bytes → Table Visit → Result SchemaError (Table Visit))
    → List Bytes
    → Table Visit
    → Result SchemaError (Table Visit)
visit_all walk [] states = ok states
visit_all walk (d ∷ ds) states = do states' ← walk d states; visit_all walk ds states'

-- `requires id` stands for `rules[id].Requires`.
unfoldable pub visit :
    (Bytes → List Bytes) → ℕ → Bytes → Table Visit → Result SchemaError (Table Visit)
visit requires zero id states = err no_fuel
visit requires (suc fuel) id states = elim (lookup id states) [
  | some visiting ↦ err (dependency_cycle id)
  | some visited ↦ ok states
  | none ↦ (visit_all (visit requires fuel) (requires id) (put id visiting states)) >>= λ states'.
      ok (put id visited states')
]
