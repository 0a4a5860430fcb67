-- ===== src/Tests/Scores.antt =====
-- A document of two rules, of which the first requires the second, and the scores of two matches.
use hemera.Scoring.Evaluate.{evaluate, evaluate-IsExplained}
use hemera.Float.{◌≼◌}
use hemera.Model.{validate_signal}
use hemera.Model.Normalized.{IsNormalized, validate_signal-IsNormalized}
use hemera.Rules.Pattern.{prepare_text_pattern, pattern_matches, needs_case_fold}
use hemera.Rules.Cache.{prepare_evidence, evidence_matches, field, raw_field}
use hemera.Rules.Match.{
  match_rules, match_rule, evaluate_condition, match_evidence_list, match_evidence_from,
  strongest_match, scan_signals, stronger_signal, count_evidence_groups,
}
use hemera.Rules.Match.Document.{validate_signals, match_document}
use hemera.Base.{
  ◌↔◌, bytes_lt, ◌≡◌, ◌≤◌, refl, Bool, true, false, Bytes, bytes, bytes_eq, has, some, none, ok,
  List, [], ◌∷◌, All, lookup, put, Pairs,
}
use hemera.Float.Fixed.{Fixed, plus, fixed_float, Fixed-IsOrdered}
use hemera.Text.{Text, ascii}
use hemera.Model.{Signal, is_valid_type}
use hemera.Rules.Schema.{TextPattern, Evidence, condition, absent, Rule, RuleSet, evidence_group}
use hemera.Rules.Match.{EvidenceMatch, MatchResult, evidence_match}
use hemera.Rules.Validate.{identifier_from, is_identifier, is_valid_category, finite_range}
use hemera.Rules.Validate.Evidence.{
  count_operations, validate_pattern, count_patterns, validate_evidence, validate_signal_condition,
  validate_condition,
}
use hemera.Rules.Validate.Graph.{visit, visit_all}
use hemera.Rules.Validate.Document.{
  validate_penalties, validate_conflicts, validate_names, validate_rule, validate_rules,
  validate_requires, validate_conflicts_with, validate_references, validate_dependency_graph,
  validate_rule_set,
}
use hemera.Rules.Validate.Document.Accepted.{validate_rule_set-IsAcyclic}
use hemera.Scoring.{Detection, level_for_score}
use hemera.Scoring.Detections.{score_matches}
use hemera.Scoring.Detections.Report.{IsAcyclic, IsExplained}
use hemera.Scoring.Detections.Total.{score_matches-IsExplained}
use hemera.Scoring.Range.{rank, InRange, level_for_score_mono, score_matches-IsScored}

instance abbrev pub ascii_text : Text
ascii_text = ascii

abbrev key_is : TextPattern
key_is = record {
  exact = some (bytes "k");
  contains = none;
  prefix = none;
  suffix = none;
  regex = none;
  case_insensitive = false;
}

abbrev pub sign : Evidence Fixed
sign = record {
  id = bytes "e1";
  group = [];
  description = [];
  type = bytes "cookie";
  source = none;
  key = some key_is;
  value = none;
  url = none;
  weight = plus 8000;
}

abbrev rule : Bytes → List Bytes → Rule Fixed
rule id requires = record {
  id = id;
  name = bytes "N";
  description = [];
  category = bytes "waf";
  vendor = bytes "V";
  product = [];
  minimum_evidence = 1;
  minimum_score = plus 2500;
  match = condition (some sign) absent absent;
  negative_evidence = [];
  ambiguous_evidence = [];
  requires = requires;
  conflicts = [];
}

abbrev pub document : List (Rule Fixed)
document = rule (bytes "a") (bytes "b" ∷ []) ∷ rule (bytes "b") [] ∷ []

abbrev pub rule_set : RuleSet Fixed
rule_set = record { schema_version = 2; rules = document }

pub accepted : validate_rule_set rule_set ≡ ok tt
unfolding validate_penalties validate_conflicts validate_names validate_rule validate_rules
    validate_requires validate_conflicts_with validate_references validate_dependency_graph
    validate_rule_set visit visit_all count_operations validate_pattern count_patterns
    validate_evidence validate_signal_condition validate_condition identifier_from is_identifier
    is_valid_category finite_range is_valid_type lookup put has bytes_eq evidence_group
accepted = refl

validate_rule_set-IsAcyclic_example : IsAcyclic document
validate_rule_set-IsAcyclic_example = validate_rule_set-IsAcyclic rule_set accepted

abbrev pub seen : Signal Fixed
seen = record {
  type = bytes "cookie";
  source = bytes "b";
  key = bytes "k";
  value = [];
  url = [];
  confidence = plus 90;
}

abbrev result : Bytes → Bool → List (EvidenceMatch Fixed) → MatchResult Fixed
result id matched evidence = record {
  rule_id = id;
  condition_matched = matched;
  minimum_evidence_met = matched;
  positive_evidence = evidence;
  negative_evidence = [];
  ambiguous_evidence = [];
  missing_positive_evidence = [];
}

-- the first rule matched, the second did not
abbrev matches : List (MatchResult Fixed)
matches = result (bytes "a") true (evidence_match sign seen ∷ []) ∷ result (bytes "b") false [] ∷ []

score_matches-IsExplained_example :
    (ds : List (Detection Fixed)) × (score_matches document matches ≡ ok ds)
    × Pairs (IsExplained ds) document ds
score_matches-IsExplained_example =
    score_matches-IsExplained document matches (validate_rule_set-IsAcyclic rule_set accepted) refl

reported :
    (ds : List (Detection Fixed)) × (score_matches document matches ≡ ok ds)
    × Pairs (IsExplained ds) document ds
reported =
    score_matches-IsExplained document matches (validate_rule_set-IsAcyclic rule_set accepted) refl

abbrev detections : List (Detection Fixed)
detections = reported.0

score_matches-IsScored_example :
    All
      (λ d.
        InRange Fixed-IsOrdered d.score
        × InRange Fixed-IsOrdered d.evidence_score
        × (d.level ≡ level_for_score d.score))
      detections
score_matches-IsScored_example = score_matches-IsScored Fixed-IsOrdered document matches reported.1

level_for_score_mono_example :
    rank (level_for_score (plus 6000)) ≤ rank (level_for_score (plus 9500))
level_for_score_mono_example = level_for_score_mono Fixed-IsOrdered (plus 6000) (plus 9500) refl

-- Both rules match the signal.
abbrev both_matched : List (MatchResult Fixed)
both_matched =
    result (bytes "a") true (evidence_match sign seen ∷ [])
    ∷ result (bytes "b") true (evidence_match sign seen ∷ [])
    ∷ []

matched : match_document rule_set (seen ∷ []) ≡ ok both_matched
unfolding match_document validate_signals validate_signal is_valid_type match_rules match_rule
    evaluate_condition match_evidence_list match_evidence_from strongest_match scan_signals
    stronger_signal count_evidence_groups prepare_evidence prepare_text_pattern evidence_matches
    field raw_field pattern_matches needs_case_fold bytes_eq bytes_lt evidence_group has
matched = rw accepted refl

pub evaluated :
    (ds : List (Detection Fixed)) × (evaluate rule_set (seen ∷ []) ≡ ok ds)
    × Pairs (IsExplained ds) document ds
evaluated = evaluate-IsExplained rule_set (seen ∷ []) both_matched matched

evaluate-IsExplained_example :
    (ds : List (Detection Fixed)) × (evaluate rule_set (seen ∷ []) ≡ ok ds)
    × Pairs (IsExplained ds) document ds
evaluate-IsExplained_example = evaluate-IsExplained rule_set (seen ∷ []) both_matched matched

finite_between :
    (x : Fixed) → fixed_float.of_ℕ 0 ≼ x → x ≼ fixed_float.of_ℕ 1 → fixed_float.is_inf x ≡ false
finite_between x h k = refl

validate_signal-IsNormalized_example : (validate_signal seen ≡ none) ↔ IsNormalized seen
validate_signal-IsNormalized_example =
    validate_signal-IsNormalized Fixed-IsOrdered finite_between seen
