-- ===== src/Rules/Validate/Evidence.antt =====
-- validateCondition, validateEvidence, validatePenaltyEvidence and TextPattern.validate of
-- internal/rules/schema.go.
use hemera.Base.{
  ℕ, suc, ◌+◌, Bool, true, false, ◌&&◌, ◌||◌, not, Bytes, bytes_eq, has, ◌==◌, ltb, length, Option,
  some, none, Result, ok, err, ◌>>=◌, if◌then◌else◌, List, [], ◌∷◌, ◌++◌,
}
use hemera.Float.{Float64}
use hemera.Text.{Text}
use hemera.Model.{is_valid_type}
use hemera.Rules.Schema.{
  TextPattern, Evidence, Condition, condition, absent, present, Conditions, nil, cons,
  evidence_group,
}
use hemera.Rules.Pattern.{compile_regex}
use hemera.Rules.Validate.{
  SchemaError, is_identifier, finite_range, max_pattern_bytes, max_condition_depth,
  max_evidence_per_rule, schema_version_v1, empty_operand, long_operand, bad_operations, bad_regex,
  bad_evidence_id, bad_group, bad_signal_type, bad_weight, no_pattern, duplicate_evidence,
  penalty_group, too_deep, bad_kinds, empty_group, too_many_nodes, group_in_v1,
}

-- if the test fails, the error
abbrev pub check : Bool → SchemaError → Result SchemaError (Unit {0})
check true e = ok tt
check false e = err e

infixl 5 ◌>>◌
abbrev pub ◌>>◌ :
    {A : Type 0} → Result SchemaError (Unit {0}) → Result SchemaError A → Result SchemaError A
m >> k = m >>= λ _. k

abbrev pub is_empty_text : Bytes → Bool
is_empty_text s = bytes_eq s []

-- the loop of TextPattern.validate over the operations, which counts the given ones
unfoldable pub count_operations : ℕ → List (Option Bytes) → Result SchemaError ℕ
count_operations n [] = ok n
count_operations n (none ∷ os) = count_operations n os
count_operations n (some o ∷ os) = do
  check (not (is_empty_text o)) empty_operand
  check (not (ltb max_pattern_bytes (length o))) long_operand
  count_operations (n + 1) os

module _ ⦃tx : Text⦄ where
  abbrev is_compiled : Option (Bytes → Bool) → Bool
  is_compiled none = false
  is_compiled (some _) = true

  abbrev check_regex : TextPattern → Option Bytes → Result SchemaError (Unit {0})
  check_regex p none = ok tt
  check_regex p (some r) = check (is_compiled (compile_regex r p.case_insensitive)) bad_regex

  -- TextPattern.validate
  unfoldable pub validate_pattern : TextPattern → Result SchemaError (Unit {0})
  validate_pattern p = do
    n ← count_operations 0 (p.exact ∷ p.contains ∷ p.prefix ∷ p.suffix ∷ p.regex ∷ [])
    check (n == 1) bad_operations
    check_regex p p.regex

  -- the loop of validateEvidence over the patterns, which counts the given ones
  unfoldable pub count_patterns : ℕ → List (Option TextPattern) → Result SchemaError ℕ
  count_patterns n [] = ok n
  count_patterns n (none ∷ ps) = count_patterns n ps
  count_patterns n (some p ∷ ps) = do validate_pattern p; count_patterns (n + 1) ps

-- The sets `ids` and `groups` and the counter `nodes` that the validation of a rule shares.
pub record Seen : Type 0 where
  pub nodes : ℕ
  pub ids : List Bytes
  pub groups : List Bytes

abbrev pub add_to : Bytes → List Bytes → List Bytes
add_to k s = if has k s then s else s ++ (k ∷ [])

abbrev pub check_depth : ℕ → Result SchemaError (Unit {0})
check_depth depth = check (not (ltb max_condition_depth depth)) too_deep

module _ {F : Type 0} ⦃fl : Float64 F⦄ ⦃tx : Text⦄ where
  -- validateEvidence: the new set of ids
  unfoldable pub validate_evidence : Evidence F → List Bytes → Result SchemaError (List Bytes)
  validate_evidence e ids = do
    check (is_identifier e.id) bad_evidence_id
    check (not (has e.id ids)) (duplicate_evidence e.id)
    check (is_empty_text e.group || is_identifier e.group) bad_group
    check (is_valid_type e.type) bad_signal_type
    check
        (finite_range e.weight 0 100
          && not (fl.le e.weight (fl.of_ℕ 0) && fl.le (fl.of_ℕ 0) e.weight))
        bad_weight
    n ← count_patterns 0 (e.source ∷ e.key ∷ e.value ∷ e.url ∷ [])
    check (not (n == 0)) no_pattern
    ok (add_to e.id ids)

  -- validatePenaltyEvidence
  unfoldable pub validate_penalty_evidence :
      Evidence F → List Bytes → Result SchemaError (List Bytes)
  validate_penalty_evidence e ids = do
    check (is_empty_text e.group) penalty_group
    validate_evidence e ids

  -- the case of validateCondition for a signal
  unfoldable pub validate_signal_condition : Evidence F → ℕ → Seen → Result SchemaError Seen
  validate_signal_condition e version seen = do
    check (not (ltb max_evidence_per_rule (seen.nodes + 1))) too_many_nodes
    ids ← validate_evidence e seen.ids
    check (not (version == schema_version_v1 && not (is_empty_text e.group))) group_in_v1
    ok (record {
      nodes = seen.nodes + 1;
      ids = ids;
      groups = add_to (evidence_group e) seen.groups;
    })

  unfoldable mutual
    -- validateCondition
    pub validate_condition : Condition F → ℕ → ℕ → Seen → Result SchemaError Seen
    validate_condition (condition (some e) absent absent) depth version seen = do
      check_depth depth
      validate_signal_condition e version seen
    validate_condition (condition none (present all) absent) depth version seen = do
      check_depth depth
      validate_children all depth version seen
    validate_condition (condition none absent (present any)) depth version seen = do
      check_depth depth
      validate_children any depth version seen
    validate_condition (condition _ _ _) depth version seen = do check_depth depth; err bad_kinds

    -- the children of a group, of which there is at least one
    pub validate_children : Conditions F → ℕ → ℕ → Seen → Result SchemaError Seen
    validate_children nil depth version seen = err empty_group
    validate_children (cons c cs) depth version seen = do
      seen' ← validate_condition c (suc depth) version seen
      validate_rest cs (suc depth) version seen'

    pub validate_rest : Conditions F → ℕ → ℕ → Seen → Result SchemaError Seen
    validate_rest nil depth version seen = ok seen
    validate_rest (cons c cs) depth version seen = do
      seen' ← validate_condition c depth version seen
      validate_rest cs depth version seen'
