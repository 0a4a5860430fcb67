-- ===== src/Scoring/Detections.antt =====
-- scoreMatches of internal/scoring/scoring.go. The maps of the source that are keyed by rule and
-- filled in one loop are one table of records here.
pub mod Tables
pub mod Correct
pub mod Report
pub mod Explained
pub mod Total
use hemera.Base.{
  ℕ, zero, suc, Bool, true, false, ◌&&◌, ◌||◌, not, Bytes, Option, some, none, Result, ok, err,
  ◌>>=◌, if◌then◌else◌, List, [], ◌∷◌, ◌++◌, Table, lookup, put, length, ◌==◌,
}
use hemera.Float.{Float64}
use hemera.Rules.Schema.{Rule, Conflict}
use hemera.Rules.Match.{MatchResult, is_candidate}
use hemera.Scoring.{
  AppliedConflict, ScoredEvidence, EvidenceGroup, Detection, clamp, level_for_score,
}
use hemera.Scoring.Contributions.{score_positive, score_penalties}
use hemera.Scoring.Eligibility.{eligible}

pub data ScoreError : Type 0 where
  wrong_count : ScoreError
  duplicate_rule missing_rule : Bytes → ScoreError
  -- the closure `eligible` did not return with the fuel given
  no_fuel : ScoreError

-- The entries of one rule in positiveScores, positiveGroups, positiveEvidence, negativeEvidence,
-- ambiguousEvidence and baseEvidenceScores.
pub record RuleEvidence (F : Type 0) : Type 0 where
  pub positive_score : F
  pub groups : List (EvidenceGroup F)
  pub positive : List (ScoredEvidence F)
  pub negative : List (ScoredEvidence F)
  pub ambiguous : List (ScoredEvidence F)
  pub evidence_score : F

-- The entries of one rule in evidenceScores and conflictsByID.
pub record RuleScore (F : Type 0) : Type 0 where
  pub score : F
  pub conflicts : List (AppliedConflict F)

module _ {F : Type 0} where
  unfoldable pub index_matches :
      Table (MatchResult F) → List (MatchResult F) → Result ScoreError (Table (MatchResult F))
  index_matches by_id [] = ok by_id
  index_matches by_id (m ∷ ms) = elim (lookup m.rule_id by_id) [
    | some _ ↦ err (duplicate_rule m.rule_id)
    | none ↦ index_matches (put m.rule_id m by_id) ms
  ]

  unfoldable pub index_rules : List (Rule F) → Table (Rule F) → Table (Rule F)
  index_rules [] by_id = by_id
  index_rules (r ∷ rs) by_id = index_rules rs (put r.id r by_id)

  abbrev pub candidate_of : Option (MatchResult F) → Bool
  candidate_of none = false
  candidate_of (some m) = is_candidate m

module _ {F : Type 0} ⦃fl : Float64 F⦄ where
  -- one round of the loop over the matches
  unfoldable pub base_of : MatchResult F → RuleEvidence F
  base_of m =
      let active = is_candidate m in
      let (positive_score, positive, groups) = score_positive m.positive_evidence active in
      let (negative_score, negative) = score_penalties m.negative_evidence active in
      let (ambiguous_score, ambiguous) = score_penalties m.ambiguous_evidence active in
      record {
        positive_score = positive_score;
        groups = groups;
        positive = positive;
        negative = negative;
        ambiguous = ambiguous;
        evidence_score = fl.add (fl.add positive_score negative_score) ambiguous_score;
      }

  unfoldable pub base_scores :
      List (MatchResult F) → Table (RuleEvidence F) → Table (RuleEvidence F)
  base_scores [] t = t
  base_scores (m ∷ ms) t = base_scores ms (put m.rule_id (base_of m) t)

  abbrev pub positive_of : Option (RuleEvidence F) → F
  positive_of none = fl.of_ℕ 0
  positive_of (some b) = b.positive_score

  -- `ok && other.Candidate() && positiveScores[conflict.RuleID] > 0`
  abbrev pub conflict_applies : Table (MatchResult F) → Table (RuleEvidence F) → Conflict F → Bool
  conflict_applies matches bases c =
      candidate_of (lookup c.rule_id matches)
      && fl.lt (fl.of_ℕ 0) (positive_of (lookup c.rule_id bases))

  unfoldable pub apply_conflicts :
      Table (MatchResult F) → Table (RuleEvidence F) → List (Conflict F) → RuleScore F → RuleScore F
  apply_conflicts matches bases [] s = s
  apply_conflicts matches bases (c ∷ cs) s = apply_conflicts matches bases cs (
      if conflict_applies matches bases c
      then (record {
        score = fl.sub s.score c.penalty;
        conflicts = s.conflicts ++ (record { rule_id = c.rule_id; penalty = c.penalty } ∷ []);
      })
      else s)

  abbrev pub evidence_score_of : Option (RuleEvidence F) → F
  evidence_score_of none = fl.of_ℕ 0
  evidence_score_of (some b) = b.evidence_score

  -- the score of a candidate after its conflicts, clamped
  unfoldable pub scored_of : Table (MatchResult F) → Table (RuleEvidence F) → Rule F → RuleScore F
  scored_of matches bases r =
      let s =
        apply_conflicts matches bases r.conflicts
          (record { score = evidence_score_of (lookup r.id bases); conflicts = [] }) in
      record { score = clamp s.score; conflicts = s.conflicts }

  -- the loop over the rules that applies the conflicts
  unfoldable pub score_rules :
      Table (MatchResult F)
      → Table (RuleEvidence F)
      → List (Rule F)
      → Table (RuleScore F)
      → Result ScoreError (Table (RuleScore F))
  score_rules matches bases [] scores = ok scores
  score_rules matches bases (r ∷ rs) scores = elim (lookup r.id matches) [
    | none ↦ err (missing_rule r.id)
    | some m ↦
        score_rules matches bases rs
          (if is_candidate m then put r.id (scored_of matches bases r) scores else scores)
  ]

  abbrev pub score_of : Option (RuleScore F) → F
  score_of none = fl.of_ℕ 0
  score_of (some s) = s.score

  abbrev pub conflicts_of : Option (RuleScore F) → List (AppliedConflict F)
  conflicts_of none = []
  conflicts_of (some s) = s.conflicts

  -- The test of a rule's own match and score in `eligible`; a rule that is not in the maps has no
  -- match, and so fails.
  abbrev pub score_met : F → Option (Rule F) → Bool
  score_met score none = true
  score_met score (some r) = not (fl.lt score r.minimum_score)

  unfoldable pub rule_passes :
      Table (MatchResult F) → Table (Rule F) → Table (RuleScore F) → Bytes → Bool
  rule_passes matches rules scores id =
      candidate_of (lookup id matches) && score_met (score_of (lookup id scores)) (lookup id rules)

  abbrev pub requires_in : Option (Rule F) → List Bytes
  requires_in none = []
  requires_in (some r) = r.requires

  unfoldable pub rule_requires : Table (Rule F) → Bytes → List Bytes
  rule_requires rules id = requires_in (lookup id rules)

abbrev pub is_empty : List Bytes → Bool
is_empty [] = true
is_empty (_ ∷ _) = false

-- The loop that collects the dependencies which are not eligible; `walk` is the call of `eligible`.
unfoldable pub missing_from :
    (Bytes → Table Bool → Option (Bool × Table Bool))
    → List Bytes
    → Table Bool
    → Option (List Bytes × Table Bool)
missing_from walk [] memo = some ([], memo)
missing_from walk (d ∷ ds) memo = elim (walk d memo) [
  | none ↦ none
  | some (value, memo') ↦ elim (missing_from walk ds memo') [
    | none ↦ none
    | some (rest, memo'') ↦ some (if value then rest else d ∷ rest, memo'')
  ]
]

module _ {F : Type 0} ⦃fl : Float64 F⦄ where
  abbrev pub groups_of : Option (RuleEvidence F) → List (EvidenceGroup F)
  groups_of none = []
  groups_of (some b) = b.groups

  abbrev pub scored_in :
      (RuleEvidence F → List (ScoredEvidence F)) → Option (RuleEvidence F) → List (ScoredEvidence F)
  scored_in f none = []
  scored_in f (some b) = f b

  abbrev pub match_flag : (MatchResult F → Bool) → Option (MatchResult F) → Bool
  match_flag f none = false
  match_flag f (some m) = f m

  abbrev pub missing_positive_of : Option (MatchResult F) → List Bytes
  missing_positive_of none = []
  missing_positive_of (some m) = m.missing_positive_evidence

  -- the detection of one rule, from its missing dependencies and the answer of `eligible`
  unfoldable pub detection_of :
      Table (MatchResult F)
      → Table (RuleEvidence F)
      → Table (RuleScore F)
      → Rule F
      → List Bytes
      → Bool
      → Detection F
  detection_of matches bases scores r missing detected =
      let match = lookup r.id matches in
      let base = lookup r.id bases in
      let evidence_score = score_of (lookup r.id scores) in
      let score = if is_empty missing then evidence_score else fl.of_ℕ 0 in
      record {
        rule_id = r.id;
        name = r.name;
        category = r.category;
        vendor = r.vendor;
        product = r.product;
        condition_matched = match_flag (λ m. m.condition_matched) match;
        minimum_evidence_met = match_flag (λ m. m.minimum_evidence_met) match;
        detected = detected;
        evidence_score = evidence_score;
        score = score;
        level = level_for_score score;
        positive_evidence = scored_in (λ b. b.positive) base;
        positive_evidence_groups = groups_of base;
        negative_evidence = scored_in (λ b. b.negative) base;
        ambiguous_evidence = scored_in (λ b. b.ambiguous) base;
        missing_positive_evidence = missing_positive_of match;
        missing_dependencies = missing;
        applied_conflicts = conflicts_of (lookup r.id scores);
      }

  -- the last loop over the rules
  unfoldable pub detect_rules :
      (Bytes → Table Bool → Option (Bool × Table Bool))
      → (Rule F → List Bytes → Bool → Detection F)
      → List (Rule F)
      → Table Bool
      → Result ScoreError (List (Detection F))
  detect_rules walk detection [] memo = ok []
  detect_rules walk detection (r ∷ rs) memo = elim (missing_from walk r.requires memo) [
    | none ↦ err no_fuel
    | some (missing, memo') ↦ elim (walk r.id memo') [
      | none ↦ err no_fuel
      | some (detected, memo'') ↦ (detect_rules walk detection rs memo'') >>= λ rest.
          ok (detection r missing detected ∷ rest)
    ]
  ]

  -- scoreMatches. A walk over the dependencies of n rules without a cycle needs fuel for n rules,
  -- and one more for a rule that is not in the set.
  unfoldable pub score_matches :
      List (Rule F) → List (MatchResult F) → Result ScoreError (List (Detection F))
  score_matches rules matches = if not (length matches == length rules) then err wrong_count else do
    by_id ← index_matches [] matches
    let bases = base_scores matches []
    scores ← score_rules by_id bases rules []
    let rule_by_id = index_rules rules []
    detect_rules
        (eligible (rule_passes by_id rule_by_id scores) (rule_requires rule_by_id)
          (suc (length rules)))
        (detection_of by_id bases scores) rules []
