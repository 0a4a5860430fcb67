-- ===== src/Scanner/Scan.antt =====
-- Scan of internal/scanner/scanner.go: the analyzers, the detectors and the coverage, with a look at the
-- context between them. The first component of the answer is the list of the events emitted.
pub mod Sound
use hemera.Base.{Bytes, Option, some, none, Result, ok, err, ◌>>=◌, wrap_error, List, [], ◌∷◌}
use hemera.Float.{Float64}
use hemera.Text.{Text}
use hemera.Model.{Signal}
use hemera.Scoring.{Detection}
use hemera.Scoring.Evaluate.{evaluate}
use hemera.Scanner.{Target, Scanner, AnalyzerResult}
use hemera.Scanner.Run.{
  Moment, at_start, before_detection, during_detection, ScanError, canceled, detector_error,
  ScanEvent, ScanState, run_analyzers,
}
use hemera.Scanner.Coverage.{DetectionCoverage, build_detection_coverage}

-- Result. Its target is the one that the analyzers are given first.
pub record ScanResult (E F : Type 0) : Type 0 where
  pub target : Target F
  pub analyzers : List (AnalyzerResult E F)
  pub signals : List (Signal F)
  pub detections : List (Detection F)
  pub coverage : List DetectionCoverage

-- `if err := ctx.Err(); err != nil`
abbrev pub unless_canceled :
    {E A : Type 0} → Moment → Option E → Result (ScanError E) A → Result (ScanError E) A
unless_canceled m (some e) next = err (canceled m e)
unless_canceled m none next = next

abbrev pub first_state : {E F : Type 0} → ScanState E F
first_state = record { analyzers = []; signals = []; metadata_sources = [] }

module _ {W E F : Type 0} ⦃fl : Float64 F⦄ ⦃tx : Text⦄ (s : Scanner W E F)
    (ctx : W → Moment → Option E) (w : W) (url : Bytes) where
  -- what follows the loop over the analyzers
  unfoldable pub conclude_scan : ScanState E F → Result (ScanError E) (ScanResult E F)
  conclude_scan st = unless_canceled before_detection (ctx w before_detection) (
      (wrap_error detector_error (evaluate s.rule_set st.signals)) >>= λ detections.
      unless_canceled during_detection (ctx w during_detection) (
        (build_detection_coverage s.rule_set.rules detections st.analyzers st.signals s.capability)
        >>= λ coverage. ok (record {
          target = record { url = url; prior = [] };
          analyzers = st.analyzers;
          signals = st.signals;
          detections = detections;
          coverage = coverage;
        })))

  -- Scan
  unfoldable pub scan : List ScanEvent × Result (ScanError E) (ScanResult E F)
  unfolding conclude_scan
  scan = elim (ctx w at_start) [
    | some e ↦ ([], err (canceled at_start e))
    | none ↦
        let (events, r) = run_analyzers s.capability ctx w url s.analyzers first_state in
        (events, r >>= conclude_scan)
  ]
