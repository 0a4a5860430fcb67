-- ===== src/Tests/Matching.antt =====
-- A cookie and a header, and a condition on them.
use hemera.Base.{
  ℕ, ◌≡◌, refl, true, bytes, bytes_eq, bytes_lt, some, none, ok, List, [], ◌∷◌, map, All,
}
use hemera.Float.Fixed.{Fixed, plus, fixed_float, Fixed-IsOrdered}
use hemera.Text.{Text, ascii}
use hemera.Model.{Signal}
use hemera.Rules.Schema.{TextPattern, Evidence, Condition, condition, absent, present, nil, cons}
use hemera.Rules.Pattern.{unprepared, prepare_text_pattern, needs_case_fold, pattern_matches}
use hemera.Rules.Cache.{
  CachedSignal, PreparedEvidence, raw_field, field, uncached, prepare_evidence, evidence_matches,
}
use hemera.Rules.Cache.Transparent.{
  IsFaithful, Agrees, evidence_holds, uncached-IsFaithful, evidence_matches_lem,
}
use hemera.Rules.Match.{
  EvidenceMatch, Outcome, evidence_match, stronger_signal, scan_signals, strongest_match,
  evaluate_condition,
}
use hemera.Rules.Match.Plain.{plain_outcome}
use hemera.Rules.Match.Refines.{evaluate_condition-plain_outcome}
use hemera.Rules.Match.Meaning.{satisfied, evaluate_condition-satisfied}
use hemera.Rules.Match.Strongest.{IsStrongest, strongest_match-IsStrongest}

instance abbrev ascii_text : Text
ascii_text = ascii

abbrev cookie : ℕ → Signal Fixed
cookie confidence = record {
  type = bytes "cookie";
  source = bytes "Browser";
  key = bytes "k";
  value = bytes "v";
  url = [];
  confidence = plus confidence;
}

abbrev is_browser : TextPattern
is_browser = record {
  exact = some (bytes "BROWSER");
  contains = none;
  prefix = none;
  suffix = none;
  regex = none;
  case_insensitive = true;
}

abbrev from_browser : Evidence Fixed
from_browser = record {
  id = bytes "e1";
  group = [];
  description = [];
  type = bytes "cookie";
  source = some is_browser;
  key = none;
  value = none;
  url = none;
  weight = plus 4000;
}

abbrev prepared : PreparedEvidence Fixed
prepared = record {
  evidence = from_browser;
  source = record { pattern = some is_browser; expression = none; operand = bytes "browser" };
  key = unprepared;
  value = unprepared;
  url = unprepared;
}

prepared_lem : prepare_evidence from_browser ≡ ok prepared
unfolding prepare_evidence prepare_text_pattern
prepared_lem = refl

abbrev scan : List (CachedSignal Fixed)
scan = uncached (cookie 50) ∷ uncached (cookie 80) ∷ []

scan-IsFaithful : All IsFaithful scan
scan-IsFaithful = (uncached-IsFaithful (cookie 50), (uncached-IsFaithful (cookie 80), tt))

evidence_matches_lem_example :
    Agrees
      (evidence_holds prepared (cookie 50))
      (uncached (cookie 50))
      (evidence_matches prepared (uncached (cookie 50)))
evidence_matches_lem_example =
    evidence_matches_lem prepared (uncached (cookie 50)) (uncached-IsFaithful (cookie 50))

abbrev twice : Condition Fixed
twice = condition none absent (present (cons (condition (some from_browser) absent absent) nil))

evaluate_condition-plain_outcome_example :
    ((evaluate_condition twice scan).0 ≡ plain_outcome twice (cookie 50 ∷ cookie 80 ∷ []))
    × All IsFaithful (evaluate_condition twice scan).1
    × (map (λ s. s.signal) (evaluate_condition twice scan).1 ≡ cookie 50 ∷ cookie 80 ∷ [])
evaluate_condition-plain_outcome_example =
    evaluate_condition-plain_outcome twice scan scan-IsFaithful

abbrev best : EvidenceMatch Fixed
best = evidence_match from_browser (cookie 80)

found : (strongest_match from_browser scan).0 ≡ ok (some best)
unfolding strongest_match scan_signals stronger_signal prepare_evidence prepare_text_pattern
    evidence_matches field raw_field pattern_matches needs_case_fold bytes_eq bytes_lt
found = refl

strongest_match-IsStrongest_example :
    IsStrongest Fixed-IsOrdered prepared from_browser (cookie 50 ∷ cookie 80 ∷ []) best
strongest_match-IsStrongest_example =
    strongest_match-IsStrongest Fixed-IsOrdered from_browser prepared scan best scan-IsFaithful
      (refl, (refl, tt)) prepared_lem found

abbrev outcome : Outcome Fixed
outcome = record { matched = true; evidence = best ∷ []; missing = [] }

outcome_lem : (evaluate_condition twice scan).0 ≡ ok outcome
unfolding evaluate_condition strongest_match scan_signals stronger_signal prepare_evidence
    prepare_text_pattern evidence_matches field raw_field pattern_matches needs_case_fold bytes_eq
    bytes_lt
outcome_lem = refl

evaluate_condition-satisfied_example :
    (true ≡ satisfied twice (cookie 50 ∷ cookie 80 ∷ []))
    × (outcome.matched ≡ true → outcome.missing ≡ [])
evaluate_condition-satisfied_example =
    evaluate_condition-satisfied twice scan outcome scan-IsFaithful outcome_lem
