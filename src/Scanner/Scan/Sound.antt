-- ===== src/Scanner/Scan/Sound.antt =====
-- What the result of Scan, internal/scanner/scanner.go, holds.
use hemera.Base.{
  ◌≡◌, sym, ◌∙◌, ap, inl, inr, subst, Bytes, Option, some, none, Result, ok, ◌>>=◌, >>=-eq-ok,
  wrap_error, wrap_error-ok, Option-cases, ok_injective, List, [], map, Pairs, Table, length, suc,
}
use hemera.Float.{Float64}
use hemera.Text.{Text}
use hemera.Model.{Signal}
use hemera.Rules.Validate.Document.Accepted.{validate_rule_set-IsAcyclic}
use hemera.Rules.Match.Document.{match_document, match_document-ids}
use hemera.Rules.Schema.{Rule, RuleSet}
use hemera.Rules.Capabilities.{CapabilityRegistry}
use hemera.Rules.Coverage.{CoverageResult}
use hemera.Scoring.{Detection}
use hemera.Scoring.Detections.Report.{IsExplained, IsAcyclic}
use hemera.Scoring.Evaluate.{match_error, evaluate, evaluate-IsExplained}
use hemera.Scanner.{Scanner, AnalyzerResult}
use hemera.Scanner.Completer.{build_capability_completer}
use hemera.Scanner.Run.{
  Moment, at_start, before_detection, during_detection, ScanError, detector_error, ScanEvent,
  ScanState, run_analyzers,
}
use hemera.Scanner.Run.Recorded.{all_signals, all_events, AreResultsOf, run_analyzers-Recorded}
use hemera.Scanner.Coverage.{
  DetectionCoverage, report_as, condition_results, build_detection_coverage,
}
use hemera.Scanner.Coverage.Exact.{coverage_by, tables_of, build_detection_coverage-exact}
use hemera.Scanner.Scan.{ScanResult, unless_canceled, first_state, conclude_scan, scan}

unless_canceled-ok :
    {E A : Type 0} (m : Moment) (o : Option E) (next : Result (ScanError E) A) {a : A}
    → unless_canceled m o next ≡ ok a
    → next ≡ ok a
unless_canceled-ok m none next h = h
unless_canceled-ok m (some e) next h = cc

module _ {F : Type 0} ⦃fl : Float64 F⦄ ⦃tx : Text⦄ where
  evaluate-IsAcyclic :
      (s : RuleSet F) (signals : List (Signal F)) (ds : List (Detection F))
      → evaluate s signals ≡ ok ds
      → IsAcyclic s.rules × Pairs (IsExplained ds) s.rules ds
  unfolding evaluate
  evaluate-IsAcyclic s signals ds h =
      let (matches, e, _) = >>=-eq-ok (wrap_error match_error (match_document s signals)) _ h in
      let matched = wrap_error-ok match_error (match_document s signals) e in
      let (ds', e', explained) = evaluate-IsExplained s signals matches matched in
      (
        validate_rule_set-IsAcyclic s (match_document-ids s signals matches matched).0,
        subst (λ x. Pairs (IsExplained x) s.rules x) (ok_injective (sym e' ∙ h)) explained,
      )

module _ {E F : Type 0} ⦃fl : Float64 F⦄ ⦃tx : Text⦄ where
  condition_results_of :
      (rules : List (Rule F)) (ds : List (Detection F)) (analyzers : List (AnalyzerResult E F))
      (signals : List (Signal F)) (registry : CapabilityRegistry)
      (coverage : List DetectionCoverage)
      → build_detection_coverage rules ds analyzers signals registry ≡ ok coverage
      → (table : Table (CoverageResult F)) × (condition_results {E = E} registry
            (build_capability_completer analyzers)
            signals
            rules
            []
          ≡ ok table)
  unfolding build_detection_coverage
  condition_results_of rules ds analyzers signals registry coverage h =
      let (table, filled, _) =
        >>=-eq-ok
          (condition_results registry (build_capability_completer analyzers) signals rules []) _
          h in
      (table, filled)

-- What the result of Scan says.
pub record IsScanOf {W E F : Type 0} ⦃fl : Float64 F⦄ ⦃tx : Text⦄ (s : Scanner W E F) (w : W)
    (url : Bytes) (events : List ScanEvent) (result : ScanResult E F) : Type 0 where
  pub observed : AreResultsOf s.capability w url [] s.analyzers result.analyzers
  pub aggregated : result.signals ≡ all_signals result.analyzers
  pub emitted : events ≡ all_events result.analyzers
  pub explained : Pairs (IsExplained result.detections) s.rule_set.rules result.detections
  pub covered :
      (results : Table (CoverageResult F)) × (condition_results {E = E} s.capability
          (build_capability_completer result.analyzers)
          result.signals
          s.rule_set.rules
          []
        ≡ ok results)
      × (result.coverage
          ≡ map
              (λ r. report_as r.id (
                coverage_by
                  (tables_of s.rule_set.rules result.detections results)
                  (suc (length s.rule_set.rules))
                  r.id))
              s.rule_set.rules)

module _ {W E F : Type 0} ⦃fl : Float64 F⦄ ⦃tx : Text⦄ (s : Scanner W E F)
    (ctx : W → Moment → Option E) (w : W) (url : Bytes) where
  conclude_scan-ok :
      (st : ScanState E F) (result : ScanResult E F)
      → conclude_scan s ctx w url st ≡ ok result
      → (evaluate s.rule_set st.signals ≡ ok result.detections)
        × (build_detection_coverage s.rule_set.rules result.detections st.analyzers st.signals
              s.capability
            ≡ ok result.coverage)
        × (result.analyzers ≡ st.analyzers)
        × (result.signals ≡ st.signals)
  unfolding conclude_scan
  conclude_scan-ok st result h =
      let (ds, e, h') =
        >>=-eq-ok (wrap_error detector_error (evaluate s.rule_set st.signals)) _
          (unless_canceled-ok before_detection (ctx w before_detection) _ h) in
      let (coverage, e', h'') =
        >>=-eq-ok
          (build_detection_coverage s.rule_set.rules ds st.analyzers st.signals s.capability) _
          (unless_canceled-ok during_detection (ctx w during_detection) _ h') in
      let same = ok_injective h'' in
      let detections : ds ≡ result.detections = ap (λ x. x.detections) same in
      (
        wrap_error-ok detector_error (evaluate s.rule_set st.signals) e ∙ ap ok detections,
        subst
              (λ x.
                build_detection_coverage s.rule_set.rules x st.analyzers st.signals s.capability
                ≡ ok coverage)
              detections e'
            ∙ ap (λ x. ok x.coverage) same,
        sym (ap (λ x. x.analyzers) same),
        sym (ap (λ x. x.signals) same),
      )

  conclude_scan-IsScanOf :
      (st : ScanState E F) (results : List (AnalyzerResult E F)) (events : List ScanEvent)
      (result : ScanResult E F)
      → AreResultsOf s.capability w url [] s.analyzers results
      → st.analyzers ≡ results
      → st.signals ≡ all_signals results
      → events ≡ all_events results
      → conclude_scan s ctx w url st ≡ ok result
      → IsScanOf s w url events result
  conclude_scan-IsScanOf st results events result observed analyzers signals emitted h =
      let (evaluated, covered, analyzers', signals') = conclude_scan-ok st result h in
      let (acyclic, explained) =
        evaluate-IsAcyclic s.rule_set st.signals result.detections evaluated in
      let rules = s.rule_set.rules in
      let (table, filled) =
        condition_results_of rules result.detections st.analyzers st.signals s.capability
          result.coverage covered in
      let Filled = λ (a : List (AnalyzerResult E F)) (x : List (Signal F)).
        condition_results {E = E} s.capability (build_capability_completer a) x rules []
        ≡ ok table in
      let results_are : result.analyzers ≡ results = analyzers' ∙ analyzers in
      record {
        observed =
            subst (AreResultsOf s.capability w url [] s.analyzers) (sym results_are) observed;
        aggregated = signals' ∙ signals ∙ ap all_signals (sym results_are);
        emitted = emitted ∙ ap all_events (sym results_are);
        explained = explained;
        covered = (
          table,
          subst (λ a. Filled a result.signals) (sym analyzers')
              (subst (Filled st.analyzers) (sym signals') filled),
          ok_injective (
              sym covered
              ∙ build_detection_coverage-exact rules result.detections st.analyzers st.signals
                  s.capability table acyclic filled),
        );
      }

  -- If Scan gives a result: it holds one outcome for each analyzer, in order; each analyzer was
  -- given the observations of those before it, returned its own source and signals that are valid,
  -- its own and of a supported type, and did not fail if its policy aborts; the signals are those
  -- of the outcomes, in order; the events are a start and a finish with the status for each; the
  -- detections explain one another; and the coverage has one entry for each rule, that of the
  -- recursion over the rules that it requires.
  pub scan-IsScanOf :
      (events : List ScanEvent) (result : ScanResult E F)
      → scan s ctx w url ≡ (events, ok result)
      → IsScanOf s w url events result
  unfolding scan
  scan-IsScanOf events result h = elim (Option-cases (ctx w at_start)) [
    | inr (e, stop) ↦ cc (rw (scan, stop) at h)
    | inl go_on ↦
        let run = run_analyzers s.capability ctx w url s.analyzers first_state in
        let both : List ScanEvent × Result (ScanError E) (ScanResult E F) =
          (run.0, run.1 >>= conclude_scan s ctx w url) in
        let h' : both ≡ (events, ok result) = rw (scan, go_on) at h in
        let (st, ended, h'') = >>=-eq-ok run.1 _ (ap (λ x. x.1) h') in
        let (results, observed, analyzers, signals, emitted) =
          run_analyzers-Recorded s.capability ctx w url s.analyzers first_state st run.0
            (ap (λ x. (run.0, x)) ended) in
        conclude_scan-IsScanOf st results events result observed analyzers signals
          (sym (ap (λ x. x.0) h') ∙ emitted) h''
  ]
