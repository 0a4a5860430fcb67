-- ===== src/Scanner/Coverage.antt =====
-- buildDetectionCoverage of internal/scanner/scanner.go: the status of each rule from its own coverage and
-- that of the rules it requires. The closure evalRule is a walk with a memo table and a set of the
-- rules being visited, on fuel; `settled`, `decide` and `requires` stand for what it reads of a rule.
pub mod Walk
pub mod Exact
use hemera.Base.{
  ℕ, zero, suc, Bool, true, false, not, ◌||◌, Bytes, Option, some, none, Result, ok, err, ◌>>=◌,
  if◌then◌else◌, List, [], ◌∷◌, ◌++◌, Table, lookup, put, has, or_zero, length, map,
}
use hemera.Float.{Float64}
use hemera.Text.{Text}
use hemera.Model.{SignalType, Signal}
use hemera.Sorted.{deduplicate_sorted}
use hemera.Rules.Schema.{Rule, condition, absent}
use hemera.Rules.Pattern.{PatternError}
use hemera.Rules.Capabilities.{CapabilityRegistry}
use hemera.Rules.Coverage.{
  CoverageState, not_matched, matched, unknown, CoverageResult, unsatisfiable,
  evaluate_condition_coverage, evaluate_rule_coverage,
}
use hemera.Scoring.{Detection, ScoredEvidence, AppliedConflict}
use hemera.Scoring.Detections.{index_rules, rule_requires}
use hemera.Scanner.{AnalyzerResult}
use hemera.Scanner.Completer.{build_capability_completer}
use hemera.Scanner.Run.{ScanError, coverage_error, no_fuel}

pub data DetectionStatus : Type 0 where
  status_detected status_not_detected status_insufficient_coverage : DetectionStatus

-- ruleCoverageState
pub record RuleCoverage : Type 0 where
  pub status : DetectionStatus
  pub incomplete_sources : List Bytes
  pub required_sources : List Bytes

pub record DetectionCoverage : Type 0 where
  pub rule_id : Bytes
  pub status : DetectionStatus
  pub required_sources : List Bytes
  pub incomplete_sources : List Bytes

-- depUnknown, depNotDetected, depIncomplete and allRequired
pub record Dependencies : Type 0 where
  pub unknown : Bool
  pub not_detected : Bool
  pub incomplete : List Bytes
  pub required : List Bytes

-- one round of the loop over rule.Requires
abbrev pub add_dependency : RuleCoverage → Dependencies → Dependencies
add_dependency s deps = elim (s.status) [
  | status_insufficient_coverage ↦ record deps {
    unknown = true;
    incomplete = deps.incomplete ++ s.incomplete_sources;
    required = deps.required ++ s.required_sources;
  }
  | status_not_detected ↦ record deps {
    not_detected = true;
    required = deps.required ++ s.required_sources;
  }
  | status_detected ↦ record deps { required = deps.required ++ s.required_sources }
]

abbrev negative : Dependencies → RuleCoverage
negative deps = record {
  status = status_not_detected;
  incomplete_sources = [];
  required_sources = deduplicate_sorted deps.required;
}

abbrev insufficient : List Bytes → Dependencies → RuleCoverage
insufficient sources deps = record {
  status = status_insufficient_coverage;
  incomplete_sources = deduplicate_sorted sources;
  required_sources = deduplicate_sorted deps.required;
}

-- what follows the loop over rule.Requires
unfoldable pub decide_status : CoverageState → List Bytes → Dependencies → RuleCoverage
decide_status not_matched sources deps = negative deps
decide_status unknown sources deps =
    if deps.not_detected
    then negative deps
    else if deps.unknown
    then insufficient (sources ++ deps.incomplete) deps
    else insufficient sources deps
decide_status matched sources deps =
    if deps.not_detected
    then negative deps
    else if deps.unknown
    then insufficient (sources ++ deps.incomplete) deps
    else negative deps

abbrev Walk : Type 0
Walk = Bytes → Table RuleCoverage → Option (RuleCoverage × Table RuleCoverage)

-- the loop over rule.Requires; `walk` is the call of evalRule
abbrev pub eval_all :
    Walk
    → List Bytes
    → Dependencies
    → Table RuleCoverage
    → Option (Dependencies × Table RuleCoverage)
eval_all walk [] deps memo = some (deps, memo)
eval_all walk (d ∷ ds) deps memo = elim (walk d memo) [
  | none ↦ none
  | some (s, memo') ↦ eval_all walk ds (add_dependency s deps) memo'
]

abbrev pub conclude :
    Bytes
    → (Dependencies → RuleCoverage)
    → Option (Dependencies × Table RuleCoverage)
    → Option (RuleCoverage × Table RuleCoverage)
conclude id decide none = none
conclude id decide (some (deps, memo)) = some (decide deps, put id (decide deps) memo)

abbrev pub visited_again : RuleCoverage
visited_again = record {
  status = status_not_detected;
  incomplete_sources = [];
  required_sources = [];
}

module _ (settled : Bytes → Option RuleCoverage) (start : Bytes → Dependencies)
    (decide : Bytes → Dependencies → RuleCoverage) (requires : Bytes → List Bytes) where
  -- evalRule
  unfoldable pub eval_rule :
      ℕ → Bytes → List Bytes → Table RuleCoverage → Option (RuleCoverage × Table RuleCoverage)
  eval_rule zero id visiting memo = none
  eval_rule (suc fuel) id visiting memo = elim (lookup id memo) [
    | some s ↦ some (s, memo)
    | none ↦ if has id visiting then some (visited_again, memo) else elim (settled id) [
      | some s ↦ some (s, put id s memo)
      | none ↦
          conclude id (decide id)
            (eval_all (λ d m. eval_rule fuel d (id ∷ visiting) m) (requires id) (start id) memo)
    ]
  ]

-- the maps of buildDetectionCoverage
pub record CoverageTables (F : Type 0) : Type 0 where
  pub detections : Table (Detection F)
  pub rules : Table (Rule F)
  pub results : Table (CoverageResult F)

module _ {F : Type 0} ⦃fl : Float64 F⦄ where
  abbrev magnitude : F → F
  magnitude x = if fl.lt x (fl.of_ℕ 0) then fl.neg x else x

  unfoldable pub add_penalties : F → List (ScoredEvidence F) → F
  add_penalties total [] = total
  add_penalties total (e ∷ es) = add_penalties (fl.add total (magnitude e.raw_contribution)) es

  unfoldable pub add_conflicts : F → List (AppliedConflict F) → F
  add_conflicts total [] = total
  add_conflicts total (c ∷ cs) = add_conflicts (fl.add total c.penalty) cs

  abbrev pub observed_penalties : Option (Detection F) → F
  observed_penalties none = fl.of_ℕ 0
  observed_penalties (some d) =
      add_conflicts
        (add_penalties (add_penalties (fl.of_ℕ 0) d.negative_evidence) d.ambiguous_evidence)
        d.applied_conflicts

  abbrev pub is_detected : Option (Detection F) → Bool
  is_detected none = false
  is_detected (some d) = d.detected

  -- The zero value of a rule, which a read of an absent key gives.
  abbrev zero_rule : Rule F
  zero_rule = record {
    id = [];
    name = [];
    description = [];
    category = [];
    vendor = [];
    product = [];
    minimum_evidence = 0;
    minimum_score = fl.of_ℕ 0;
    match = condition none absent absent;
    negative_evidence = [];
    ambiguous_evidence = [];
    requires = [];
    conflicts = [];
  }

  -- The zero value of a ConditionCoverageResult, but for its state, which is not read again.
  abbrev zero_result : CoverageResult F
  zero_result = unsatisfiable []

  unfoldable pub index_detections : List (Detection F) → Table (Detection F) → Table (Detection F)
  index_detections [] t = t
  index_detections (d ∷ ds) t = index_detections ds (put d.rule_id d t)

  abbrev pub result_of : CoverageTables F → Bytes → CoverageResult F
  result_of t id = or_zero zero_result (lookup id t.results)

  -- the case of a detected rule
  abbrev pub settled_by : CoverageTables F → Bytes → Option RuleCoverage
  settled_by t id =
      if is_detected (lookup id t.detections)
      then some (record {
        status = status_detected;
        incomplete_sources = [];
        required_sources = (result_of t id).required_sources;
      })
      else none

  abbrev pub start_with : CoverageTables F → Bytes → Dependencies
  start_with t id = record {
    unknown = false;
    not_detected = false;
    incomplete = [];
    required = (result_of t id).required_sources;
  }

  abbrev pub decide_by : CoverageTables F → Bytes → Dependencies → RuleCoverage
  decide_by t id deps =
      let det = lookup id t.detections in
      let (state, sources) =
        evaluate_rule_coverage (or_zero zero_rule (lookup id t.rules)) (result_of t id)
          (is_detected det) (observed_penalties det) in
      decide_status state sources deps

  -- evalRule on the maps of buildDetectionCoverage
  abbrev pub eval_by :
      CoverageTables F → ℕ → Bytes → Table RuleCoverage → Option (RuleCoverage × Table RuleCoverage)
  eval_by t fuel id memo =
      eval_rule (settled_by t) (start_with t) (decide_by t) (rule_requires t.rules) fuel id [] memo

abbrev pub report_as : Bytes → RuleCoverage → DetectionCoverage
report_as id s = record {
  rule_id = id;
  status = s.status;
  required_sources = s.required_sources;
  incomplete_sources = s.incomplete_sources;
}

module _ {E F : Type 0} where
  -- the last loop over the rules
  unfoldable pub cover_rules :
      Walk → List (Rule F) → Table RuleCoverage → Result (ScanError E) (List DetectionCoverage)
  cover_rules walk [] memo = ok []
  cover_rules walk (r ∷ rs) memo = elim (walk r.id memo) [
    | none ↦ err no_fuel
    | some (s, memo') ↦ (cover_rules walk rs memo') >>= λ rest. ok (report_as r.id s ∷ rest)
  ]

module _ {E F : Type 0} ⦃fl : Float64 F⦄ ⦃tx : Text⦄ (registry : CapabilityRegistry)
    (complete : Bytes → SignalType → Bool) (signals : List (Signal F)) where
  -- the loop that fills conditionResults
  unfoldable pub condition_results :
      List (Rule F) → Table (CoverageResult F) → Result (ScanError E) (Table (CoverageResult F))
  condition_results [] t = ok t
  condition_results (r ∷ rs) t =
      elim (evaluate_condition_coverage registry complete r.match signals) [
        | err e ↦ err (coverage_error r.id e)
        | ok result ↦ condition_results rs (put r.id result t)
      ]

module _ {E F : Type 0} ⦃fl : Float64 F⦄ ⦃tx : Text⦄ where
  -- buildDetectionCoverage. The walk over n rules without a cycle needs fuel for n rules, and one more
  -- for a rule that is not in the set.
  unfoldable pub build_detection_coverage :
      List (Rule F)
      → List (Detection F)
      → List (AnalyzerResult E F)
      → List (Signal F)
      → CapabilityRegistry
      → Result (ScanError E) (List DetectionCoverage)
  build_detection_coverage rules detections analyzers signals registry = do
    results ← condition_results registry (build_capability_completer analyzers) signals rules []
    let t : CoverageTables F = record {
      detections = index_detections detections [];
      rules = index_rules rules [];
      results = results;
    }
    cover_rules (eval_by t (suc (length rules))) rules []
