-- ===== src/Rules/Validate/Document.antt =====
-- validateRule and RuleSet.Validate of internal/rules/schema.go.
pub mod Accepted
use hemera.Base.{
  ℕ, suc, Bool, true, false, ◌&&◌, ◌||◌, not, Bytes, bytes_eq, has, ◌==◌, ltb, leb, length, Option,
  some, none, Result, ok, err, ◌>>=◌, if◌then◌else◌, List, [], ◌∷◌, ◌++◌, map, Table, lookup, put,
}
use hemera.Float.{Float64}
use hemera.Text.{Text}
use hemera.Model.{is_blank}
use hemera.Rules.Schema.{Evidence, Rule, RuleSet, Conflict}
use hemera.Rules.Validate.{
  SchemaError, is_identifier, is_valid_category, finite_range, max_evidence_per_rule, max_rules,
  schema_version_v1, current_schema_version, bad_id, no_name, bad_category, no_vendor,
  bad_minimum_evidence, bad_minimum_score, minimum_unreachable, too_much_evidence, bad_conflict,
  bad_penalty, bad_requires, bad_version, no_rules, too_many_rules, duplicate_id, requires_itself,
  conflicts_itself, requires_unknown, repeats_dependency, conflicts_unknown, repeats_conflict,
  contradictory,
}
use hemera.Rules.Validate.Evidence.{
  check, ◌>>◌, Seen, validate_condition, validate_penalty_evidence,
}
use hemera.Rules.Validate.Graph.{Visit, visit, visit_all}

module _ {F : Type 0} ⦃fl : Float64 F⦄ ⦃tx : Text⦄ where
  -- the loops over the negative and the ambiguous evidence
  unfoldable pub validate_penalties :
      List (Evidence F) → List Bytes → Result SchemaError (List Bytes)
  validate_penalties [] ids = ok ids
  validate_penalties (e ∷ es) ids = do
    ids' ← validate_penalty_evidence e ids
    validate_penalties es ids'

  unfoldable pub validate_conflicts : List (Conflict F) → Result SchemaError (Unit {0})
  validate_conflicts [] = ok tt
  validate_conflicts (c ∷ cs) = do
    check (is_identifier c.rule_id) bad_conflict
    check
        (finite_range c.penalty 0 100
          && not (fl.le c.penalty (fl.of_ℕ 0) && fl.le (fl.of_ℕ 0) c.penalty))
        bad_penalty
    validate_conflicts cs

abbrev pub is_absent : {V : Type 0} → Option V → Bool
is_absent none = true
is_absent (some _) = false

-- `rules[id].Requires`, which is empty for an unknown rule
abbrev pub requires_in : {F : Type 0} → Option (Rule F) → List Bytes
requires_in none = []
requires_in (some r) = r.requires

abbrev pub requires_of : {F : Type 0} → Table (Rule F) → Bytes → List Bytes
requires_of by_id id = requires_in (lookup id by_id)

-- the loop over the names in `requires`
unfoldable pub validate_names : List Bytes → Result SchemaError (Unit {0})
validate_names [] = ok tt
validate_names (d ∷ ds) = do check (is_identifier d) bad_requires; validate_names ds

abbrev available : ℕ → Seen → ℕ
available version seen =
    if version == current_schema_version then length seen.groups else seen.nodes

module _ {F : Type 0} ⦃fl : Float64 F⦄ ⦃tx : Text⦄ where
  -- validateRule
  unfoldable pub validate_rule : Rule F → ℕ → Result SchemaError (Unit {0})
  validate_rule r version = do
    check (is_identifier r.id) bad_id
    check (not (is_blank r.name)) no_name
    check (is_valid_category r.category) bad_category
    check (not (is_blank r.vendor)) no_vendor
    check (not (ltb r.minimum_evidence 1)) bad_minimum_evidence
    check (finite_range r.minimum_score 25 100) bad_minimum_score
    seen ← validate_condition r.match 1 version (record { nodes = 0; ids = []; groups = [] })
    check (not (ltb (available version seen) r.minimum_evidence)) minimum_unreachable
    ids ← validate_penalties r.negative_evidence seen.ids
    ids' ← validate_penalties r.ambiguous_evidence ids
    check (not (ltb max_evidence_per_rule (length ids'))) too_much_evidence
    validate_conflicts r.conflicts
    validate_names r.requires

  -- the first loop of Validate, which fills `byID`; its keys are the rules seen
  unfoldable pub validate_rules :
      List (Rule F) → ℕ → Table (Rule F) → Result SchemaError (Table (Rule F))
  validate_rules [] version by_id = ok by_id
  validate_rules (r ∷ rs) version by_id = do
    validate_rule r version
    check (is_absent (lookup r.id by_id)) (duplicate_id r.id)
    validate_rules rs version (put r.id r by_id)

  -- the loop over the dependencies of the rule `id`; `seen` is the set `requires`
  unfoldable pub validate_requires :
      Bytes → Table (Rule F) → List Bytes → List Bytes → Result SchemaError (List Bytes)
  validate_requires id by_id [] seen = ok seen
  validate_requires id by_id (d ∷ ds) seen = do
    check (not (bytes_eq d id)) (requires_itself id)
    check (not (is_absent (lookup d by_id))) (requires_unknown id d)
    check (not (has d seen)) (repeats_dependency id d)
    validate_requires id by_id ds (d ∷ seen)

  -- the loop over its conflicts
  unfoldable pub validate_conflicts_with :
      Bytes
      → Table (Rule F)
      → List Bytes
      → List (Conflict F)
      → List Bytes
      → Result SchemaError (Unit {0})
  validate_conflicts_with id by_id requires [] seen = ok tt
  validate_conflicts_with id by_id requires (c ∷ cs) seen = do
    check (not (bytes_eq c.rule_id id)) (conflicts_itself id)
    check (not (is_absent (lookup c.rule_id by_id))) (conflicts_unknown id c.rule_id)
    check (not (has c.rule_id seen)) (repeats_conflict id c.rule_id)
    check (not (has c.rule_id requires)) (contradictory id c.rule_id)
    validate_conflicts_with id by_id requires cs (c.rule_id ∷ seen)

  -- the second loop of Validate
  unfoldable pub validate_references :
      List (Rule F) → Table (Rule F) → Result SchemaError (Unit {0})
  validate_references [] by_id = ok tt
  validate_references (r ∷ rs) by_id = do
    requires ← validate_requires r.id by_id r.requires []
    validate_conflicts_with r.id by_id requires r.conflicts []
    validate_references rs by_id

  -- validateDependencyGraph, with fuel for every rule and one more
  unfoldable pub validate_dependency_graph :
      List (Rule F) → Table (Rule F) → Result SchemaError (Table Visit)
  validate_dependency_graph rules by_id =
      visit_all (visit (requires_of by_id) (suc (length rules))) (map (λ r. r.id) rules) []

  -- RuleSet.Validate
  unfoldable pub validate_rule_set : RuleSet F → Result SchemaError (Unit {0})
  validate_rule_set s = do
    check (s.schema_version == schema_version_v1 || s.schema_version == current_schema_version)
        bad_version
    check (not (length s.rules == 0)) no_rules
    check (not (ltb max_rules (length s.rules))) too_many_rules
    by_id ← validate_rules s.rules s.schema_version []
    validate_references s.rules by_id
    _ ← validate_dependency_graph s.rules by_id
    ok tt
