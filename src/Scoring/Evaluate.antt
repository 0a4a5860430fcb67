-- ===== src/Scoring/Evaluate.antt =====
-- Evaluate of internal/scoring/scoring.go.
use hemera.Base.{◌≡◌, refl, Result, ok, ◌>>=◌, wrap_error, List, Pairs}
use hemera.Float.{Float64}
use hemera.Text.{Text}
use hemera.Model.{Signal}
use hemera.Rules.Schema.{RuleSet}
use hemera.Rules.Match.{MatchResult}
use hemera.Rules.Match.Document.{MatchError, match_document, match_document-ids}
use hemera.Rules.Validate.Document.Accepted.{validate_rule_set-IsAcyclic}
use hemera.Scoring.{Detection}
use hemera.Scoring.Detections.{ScoreError, score_matches}
use hemera.Scoring.Detections.Report.{IsExplained}
use hemera.Scoring.Detections.Total.{score_matches-IsExplained}

pub data EvaluateError : Type 0 where
  match_error : MatchError → EvaluateError
  score_error : ScoreError → EvaluateError

module _ {F : Type 0} ⦃fl : Float64 F⦄ ⦃tx : Text⦄ where
  -- Evaluate
  unfoldable pub evaluate : RuleSet F → List (Signal F) → Result EvaluateError (List (Detection F))
  evaluate s signals = do
    matches ← wrap_error match_error (match_document s signals)
    wrap_error score_error (score_matches s.rules matches)

  -- If Match accepts the rule set and the signals and prepares every pattern, Evaluate returns one
  -- detection for each rule of the set, and the detections explain one another, as for
  -- scoreMatches: the errors of scoreMatches never occur.
  pub evaluate-IsExplained :
      (s : RuleSet F) (signals : List (Signal F)) (matches : List (MatchResult F))
      → match_document s signals ≡ ok matches
      → (ds : List (Detection F)) × (evaluate s signals ≡ ok ds) × Pairs (IsExplained ds) s.rules ds
  unfolding evaluate
  evaluate-IsExplained s signals matches h =
      let (valid, ids) = match_document-ids s signals matches h in
      let (ds, e, explained) =
        score_matches-IsExplained s.rules matches (validate_rule_set-IsAcyclic s valid) ids in
      (ds, rw (h, e) refl, explained)
