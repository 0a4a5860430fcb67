-- ===== src/Rules/Pattern.antt =====
-- internal/rules/match.go: a text pattern, prepared for matching, and the operations on it.
use hemera.Base.{
  Bool, false, Bytes, bytes_eq, has_prefix, has_suffix, contains, Option, some, none, Result, ok,
  err, if◌then◌else◌, [], ◌++◌, bytes,
}
use hemera.Text.{Text}
use hemera.Rules.Schema.{TextPattern}

pub record PreparedPattern : Type 0 where
  pub pattern : Option TextPattern
  pub expression : Option (Bytes → Bool)
  pub operand : Bytes

-- the zero value, which a nil pattern leaves
abbrev pub unprepared : PreparedPattern
unprepared = record { pattern = none; expression = none; operand = [] }

pub data PatternError : Type 0 where
  invalid_regex no_operation : PatternError

module _ ⦃tx : Text⦄ where
  -- compileRegex
  unfoldable pub compile_regex : Bytes → Bool → Option (Bytes → Bool)
  compile_regex e ci = tx.compile (if ci then bytes "(?i:" ++ (e ++ bytes ")") else e)

  abbrev prepare_operand : TextPattern → Bytes → Result PatternError PreparedPattern
  prepare_operand p operand = ok (record {
    pattern = some p;
    expression = none;
    operand = if p.case_insensitive then tx.to_lower operand else operand;
  })

  abbrev prepare_regex : TextPattern → Option (Bytes → Bool) → Result PatternError PreparedPattern
  prepare_regex p none = err invalid_regex
  prepare_regex p (some e) = ok (record { pattern = some p; expression = some e; operand = [] })

  -- the cases of prepareTextPattern, in its order
  abbrev prepare_cases :
      TextPattern
      → Option Bytes
      → Option Bytes
      → Option Bytes
      → Option Bytes
      → Option Bytes
      → Result PatternError PreparedPattern
  prepare_cases p (some r) _ _ _ _ = prepare_regex p (compile_regex r p.case_insensitive)
  prepare_cases p none (some o) _ _ _ = prepare_operand p o
  prepare_cases p none none (some o) _ _ = prepare_operand p o
  prepare_cases p none none none (some o) _ = prepare_operand p o
  prepare_cases p none none none none (some o) = prepare_operand p o
  prepare_cases p none none none none none = err no_operation

  -- prepareTextPattern
  unfoldable pub prepare_text_pattern : TextPattern → Result PatternError PreparedPattern
  prepare_text_pattern p = prepare_cases p p.regex p.exact p.contains p.prefix p.suffix

  -- preparedPattern.needsCaseFold
  unfoldable pub needs_case_fold : PreparedPattern → Bool
  needs_case_fold p = elim p.expression [
    | some e ↦ false
    | none ↦ elim p.pattern [ some t ↦ t.case_insensitive | none ↦ false ]
  ]

  abbrev match_operation :
      Option Bytes → Option Bytes → Option Bytes → Option Bytes → Bytes → Bytes → Bool
  match_operation (some _) _ _ _ operand value = bytes_eq value operand
  match_operation none (some _) _ _ operand value = contains value operand
  match_operation none none (some _) _ operand value = has_prefix value operand
  match_operation none none none (some _) operand value = has_suffix value operand
  match_operation none none none none operand value = false

  -- preparedPattern.matches
  unfoldable pub pattern_matches : PreparedPattern → Bytes → Bool
  pattern_matches p value = elim p.expression [
    | some e ↦ e value
    | none ↦ elim p.pattern [
      | some t ↦ match_operation t.exact t.contains t.prefix t.suffix p.operand value
      | none ↦ false
    ]
  ]

  -- TextPattern.matches
  unfoldable pub text_matches : TextPattern → Bytes → Result PatternError Bool
  unfolding prepare_text_pattern needs_case_fold pattern_matches
  text_matches p value = elim (prepare_text_pattern p) [
    | err e ↦ err e
    | ok q ↦ ok (pattern_matches q (if needs_case_fold q then tx.to_lower value else value))
  ]
