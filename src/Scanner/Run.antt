-- ===== src/Scanner/Run.antt =====
-- The loop of Scan over the analyzers, internal/scanner/scanner.go. `ctx w` gives the error of the
-- context at each of the moments at which Scan asks for it. Clone is the identity on values.
pub mod Recorded
use hemera.Base.{
  ℕ, ◌≡◌, refl, Bool, true, false, ◌&&◌, ◌||◌, not, Bytes, Option, some, none, Result, ok, err,
  if◌then◌else◌, List, [], ◌∷◌, ◌++◌, map, length, ◌==◌,
}
use hemera.Float.{Float64}
use hemera.Text.{Text}
use hemera.Model.{Signal}
use hemera.Analysis.{Observation, MetadataKind, is_empty_metadata, kinds}
use hemera.Rules.Capabilities.{CapabilityRegistry}
use hemera.Scoring.Evaluate.{EvaluateError}
use hemera.Rules.Pattern.{PatternError}
use hemera.Scanner.{
  AnalyzerStatus, status_complete, status_partial, status_failed, Target, ConfiguredAnalyzer,
  AnalyzerResult, failure_policy_abort,
}
use hemera.Scanner.Accept.{ObservationError, claim_kinds, validate_observation}

-- When Scan asks the context for its error.
pub data Moment : Type 0 where
  at_start before_detection during_detection : Moment
  before_analyzer after_analyzer : Bytes → Moment

pub data ScanError (E : Type 0) : Type 0 where
  canceled : Moment → E → ScanError E
  -- after an analyzer that may have failed too
  analyzer_canceled : Bytes → Option E → E → ScanError E
  invalid_observation : Bytes → ObservationError → ScanError E
  analyzer_error : Bytes → E → ScanError E
  detector_error : EvaluateError → ScanError E
  coverage_error : Bytes → PatternError → ScanError E
  -- evalRule did not return with the fuel given
  no_fuel : ScanError E

-- ScanEvent, of the kinds that Scan emits itself
pub data ScanEvent : Type 0 where
  started : Bytes → ScanEvent
  finished : Bytes → AnalyzerStatus → ScanEvent

-- The local variables of the loop over the analyzers.
pub record ScanState (E F : Type 0) : Type 0 where
  pub analyzers : List (AnalyzerResult E F)
  pub signals : List (Signal F)
  pub metadata_sources : List (MetadataKind × Bytes)

-- the failure that ends the scan
abbrev pub fatal : {E : Type 0} → ℕ → Option E → Option E
fatal policy none = none
fatal policy (some e) = if policy == failure_policy_abort then some e else none

module _ {E F : Type 0} where
  -- priorObservations
  abbrev pub prior_observations : List (AnalyzerResult E F) → List (Observation F)
  prior_observations = map (λ a. a.observation)

  abbrev pub status_of : Observation F → Option E → AnalyzerStatus
  status_of o none = status_complete
  status_of o (some e) =
      if not (length o.signals == 0) || not (is_empty_metadata o.metadata)
      then status_partial
      else status_failed

  abbrev pub record_result :
      Observation F → Option E → List (MetadataKind × Bytes) → ScanState E F → ScanState E F
  record_result o failure metadata st = record {
    analyzers =
        st.analyzers
        ++ (record { observation = o; status = status_of o failure; failure = failure } ∷ []);
    signals = st.signals ++ o.signals;
    metadata_sources = metadata;
  }

  -- the rest of the loop, unless the scan has ended
  abbrev pub and_then :
      List ScanEvent × Result (ScanError E) (ScanState E F)
      → (ScanState E F → List ScanEvent × Result (ScanError E) (ScanState E F))
      → List ScanEvent × Result (ScanError E) (ScanState E F)
  and_then (events, err e) next = (events, err e)
  and_then (events, ok st) next = let (more, r) = next st in (events ++ more, r)

module _ {E F : Type 0} ⦃fl : Float64 F⦄ ⦃tx : Text⦄ (registry : CapabilityRegistry) where
  -- The tests of an observation: validateObservation and the loop over its metadata kinds.
  abbrev pub check_observation :
      Bytes → Observation F → ScanState E F → Result ObservationError (List (MetadataKind × Bytes))
  check_observation source o st = elim (validate_observation source o registry) [
    | err e ↦ err e
    | ok _ ↦ claim_kinds source (kinds o.metadata) st.metadata_sources
  ]

  -- what follows the second look at the context
  unfoldable pub accept_observation :
      Bytes
      → ℕ
      → Observation F
      → Option E
      → ScanState E F
      → List ScanEvent × Result (ScanError E) (ScanState E F)
  accept_observation source policy o failure st = elim (check_observation source o st) [
    | err e ↦ ([], err (invalid_observation source e))
    | ok metadata ↦ (
      finished source (status_of o failure) ∷ [],
      elim (fatal policy failure) [
        | some e ↦ err (analyzer_error source e)
        | none ↦ ok (record_result o failure metadata st)
      ],
    )
  ]

module _ {W E F : Type 0} ⦃fl : Float64 F⦄ ⦃tx : Text⦄ (registry : CapabilityRegistry)
    (ctx : W → Moment → Option E) (w : W) (url : Bytes) where
  -- one round of the loop over the analyzers
  unfoldable pub run_analyzer :
      ConfiguredAnalyzer W E F
      → ScanState E F
      → List ScanEvent × Result (ScanError E) (ScanState E F)
  run_analyzer c st = elim (ctx w (before_analyzer c.source)) [
    | some e ↦ ([], err (canceled (before_analyzer c.source) e))
    | none ↦
        let (o, failure) =
          c.analyzer.observe w (record { url = url; prior = prior_observations st.analyzers }) in
        elim (ctx w (after_analyzer c.source)) [
          | some e ↦ (started c.source ∷ [], err (analyzer_canceled c.source failure e))
          | none ↦
              let (events, r) = accept_observation registry c.source c.policy o failure st in
              (started c.source ∷ events, r)
        ]
  ]

  unfoldable pub run_analyzers :
      List (ConfiguredAnalyzer W E F)
      → ScanState E F
      → List ScanEvent × Result (ScanError E) (ScanState E F)
  run_analyzers [] st = ([], ok st)
  run_analyzers (c ∷ cs) st = and_then (run_analyzer c st) (run_analyzers cs)
