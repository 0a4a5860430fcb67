-- ===== src/Scanner/Coverage/Exact.antt =====
-- buildDetectionCoverage of internal/scanner/scanner.go against recursion on the dependencies of a rule.
use hemera.Base.{
  ℕ, suc, ◌≡◌, refl, inl, inr, Bytes, ok, List, [], ◌∷◌, map, Table, lookup, In, In-map, length,
  Within, Within-mono, arith,
}
use hemera.Float.{Float64}
use hemera.Text.{Text}
use hemera.Model.{Signal}
use hemera.Rules.Schema.{Rule}
use hemera.Rules.Capabilities.{CapabilityRegistry}
use hemera.Rules.Coverage.{CoverageResult}
use hemera.Scoring.{Detection}
use hemera.Scoring.Detections.{index_rules, rule_requires}
use hemera.Scoring.Detections.Report.{IsAcyclic}
use hemera.Scanner.{AnalyzerResult}
use hemera.Scanner.Completer.{build_capability_completer}
use hemera.Scanner.Coverage.{
  RuleCoverage, CoverageTables, settled_by, start_with, decide_by, eval_by, report_as, cover_rules,
  condition_results, index_detections, build_detection_coverage,
}
use hemera.Scanner.Coverage.Walk.{IsMemo, coverage_of, eval_rule_lem}

module _ {F : Type 0} ⦃fl : Float64 F⦄ where
  -- The coverage of a rule from that of the rules it requires.
  abbrev pub coverage_by : CoverageTables F → ℕ → Bytes → RuleCoverage
  coverage_by t = coverage_of (settled_by t) (start_with t) (decide_by t) (rule_requires t.rules)

  abbrev pub tables_of :
      List (Rule F) → List (Detection F) → Table (CoverageResult F) → CoverageTables F
  tables_of rules detections results = record {
    detections = index_detections detections [];
    rules = index_rules rules [];
    results = results;
  }

  cover_rules_lem :
      {E : Type 0} (t : CoverageTables F) (fuel : ℕ) (rs : List (Rule F))
      (memo : Table RuleCoverage)
      → ((r : Rule F) → In r rs → Within (rule_requires t.rules) fuel r.id)
      → IsMemo (settled_by t) (start_with t) (decide_by t) (rule_requires t.rules) memo
      → cover_rules {E = E} (eval_by t fuel) rs memo
        ≡ ok (map (λ r. report_as r.id (coverage_by t fuel r.id)) rs)
  unfolding cover_rules
  cover_rules_lem t fuel [] memo h v = refl
  cover_rules_lem {E = E} t fuel (r ∷ rs) memo h v =
      let (m, e, w) =
        eval_rule_lem (settled_by t) (start_with t) (decide_by t) (rule_requires t.rules) fuel r.id
          [] memo (h r (inl refl)) (λ u i. absurd i) v in
      rw (e, cover_rules) (rw (cover_rules_lem {E = E} t fuel rs m (λ x i. h x (inr i)) w) refl)

module _ {E F : Type 0} ⦃fl : Float64 F⦄ ⦃tx : Text⦄ where
  -- On rules with unique identifiers, known dependencies and no cycle, if every condition is
  -- evaluated, buildDetectionCoverage returns one entry for each rule, and its memoized walk gives
  -- each the coverage of the recursion over the rules that it requires.
  pub build_detection_coverage-exact :
      (rules : List (Rule F)) (detections : List (Detection F))
      (analyzers : List (AnalyzerResult E F)) (signals : List (Signal F))
      (registry : CapabilityRegistry) (results : Table (CoverageResult F))
      → IsAcyclic rules
      → condition_results {E = E} registry (build_capability_completer analyzers) signals rules []
        ≡ ok results
      → build_detection_coverage rules detections analyzers signals registry
        ≡ ok (
            map
              (λ r.
                report_as r.id
                  (coverage_by (tables_of rules detections results) (suc (length rules)) r.id))
              rules)
  unfolding build_detection_coverage lookup
  build_detection_coverage-exact rules detections analyzers signals registry results v e =
      let t = tables_of rules detections results in
      rw e (
        cover_rules_lem t (suc (length rules)) rules []
          (λ r i.
            Within-mono (rule_requires t.rules) (length rules) (suc (length rules)) r.id
              (omega arith) (v.within r.id (In-map (λ (x : Rule F). x.id) r rules i)))
          (λ id s n f k. cc))
