-- ===== src/Scoring.antt =====
-- internal/scoring/scoring.go: bounded confidence scores from matched evidence. This file has the
-- result types and the levels; its children the contributions, the dependencies and the detections.
pub mod Contributions
pub mod Eligibility
pub mod Detections
pub mod Range
pub mod Evaluate
use hemera.Base.{ℕ, Bool, Bytes, List, if◌then◌else◌}
use hemera.Float.{Float64}
use hemera.Rules.Match.{EvidenceMatch}

-- in rising order
pub data Level : Type 0 where
  not_detected low medium high very_high : Level

pub record AppliedConflict (F : Type 0) : Type 0 where
  pub rule_id : Bytes
  pub penalty : F

pub record ScoredEvidence (F : Type 0) : Type 0 where
  pub match : EvidenceMatch F
  pub raw_contribution : F
  pub contribution : F

pub record EvidenceGroup (F : Type 0) : Type 0 where
  pub id : Bytes
  pub evidence_ids : List Bytes
  pub selected_evidence_id : Bytes
  pub raw_contribution : F
  pub contribution : F

pub record Detection (F : Type 0) : Type 0 where
  pub rule_id : Bytes
  pub name : Bytes
  pub category : Bytes
  pub vendor : Bytes
  pub product : Bytes
  pub condition_matched : Bool
  pub minimum_evidence_met : Bool
  pub detected : Bool
  pub evidence_score : F
  pub score : F
  pub level : Level
  pub positive_evidence : List (ScoredEvidence F)
  pub positive_evidence_groups : List (EvidenceGroup F)
  pub negative_evidence : List (ScoredEvidence F)
  pub ambiguous_evidence : List (ScoredEvidence F)
  pub missing_positive_evidence : List Bytes
  pub missing_dependencies : List Bytes
  pub applied_conflicts : List (AppliedConflict F)

module _ {F : Type 0} ⦃fl : Float64 F⦄ where
  unfoldable pub clamp : F → F
  clamp score =
      if fl.is_nan score
      then fl.of_ℕ 0
      else if fl.lt score (fl.of_ℕ 0)
      then fl.of_ℕ 0
      else if fl.lt (fl.of_ℕ 100) score
      then fl.of_ℕ 100
      else score

  -- LevelForScore
  unfoldable pub level_for_score : F → Level
  unfolding clamp
  level_for_score score =
      let s = clamp score in
      if fl.le (fl.of_ℕ 90) s
      then very_high
      else if fl.le (fl.of_ℕ 75) s
      then high
      else if fl.le (fl.of_ℕ 50) s
      then medium
      else if fl.le (fl.of_ℕ 25) s
      then low
      else not_detected
