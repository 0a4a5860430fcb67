-- ===== src/Scanner/Accept.antt =====
-- validateObservation of internal/scanner/scanner.go, and the table of the metadata kinds that Scan
-- keeps between the analyzers.
use hemera.Base.{
  ℕ, suc, ◌≡◌, subst, inl, inr, Bool, true, false, not, Bytes, bytes_eq, bytes_eq→eq, has, Option,
  some, none, Result, ok, err, ◌>>=◌, >>=-eq-ok, if◌then◌else◌, List, [], ◌∷◌, All, Option-cases,
  arith,
}
use hemera.Float.{Float64}
use hemera.Text.{Text}
use hemera.Model.{
  Signal, SignalError, SignalType, IsValidSignal, validate_signal, validate_signal-IsValidSignal,
}
use hemera.Analysis.{
  Observation, CapabilityCoverage, CoverageError, MetadataKind, http_kind, network_kind,
  validate_coverage,
}
use hemera.Rules.Capabilities.{CapabilityRegistry, supports}

pub data ObservationError : Type 0 where
  wrong_source : Bytes → ObservationError
  bad_signal : ℕ → SignalError → ObservationError
  foreign_signal undeclared_signal undeclared_coverage : ℕ → ObservationError
  bad_coverage : ℕ → CoverageError → ObservationError
  repeated_coverage : SignalType → ObservationError
  duplicate_metadata : Bytes → MetadataKind → ObservationError

abbrev pub same_kind : MetadataKind → MetadataKind → Bool
same_kind http_kind http_kind = true
same_kind network_kind network_kind = true
same_kind _ _ = false

-- The map metadataSources.
abbrev pub source_of_kind : MetadataKind → List (MetadataKind × Bytes) → Option Bytes
source_of_kind k [] = none
source_of_kind k ((j, s) ∷ t) = if same_kind j k then some s else source_of_kind k t

-- the loop over the kinds of an observation
unfoldable pub claim_kinds :
    Bytes
    → List MetadataKind
    → List (MetadataKind × Bytes)
    → Result ObservationError (List (MetadataKind × Bytes))
claim_kinds source [] t = ok t
claim_kinds source (k ∷ ks) t = elim (source_of_kind k t) [
  | some previous ↦ err (duplicate_metadata previous k)
  | none ↦ claim_kinds source ks ((k, source) ∷ t)
]

module _ {F : Type 0} ⦃fl : Float64 F⦄ ⦃tx : Text⦄ (r : CapabilityRegistry) (source : Bytes) where
  -- the loop over the signals, of which the first is the i-th
  unfoldable pub accept_signals : ℕ → List (Signal F) → Result ObservationError (Unit {0})
  accept_signals i [] = ok tt
  accept_signals i (s ∷ ss) = elim (validate_signal s) [
    | some e ↦ err (bad_signal i e)
    | none ↦
        if not (bytes_eq s.source source)
        then err (foreign_signal i)
        else if not (supports r source s.type)
        then err (undeclared_signal i)
        else accept_signals (suc i) ss
  ]

  -- What validateObservation promises of a signal.
  pub record IsAccepted (s : Signal F) : Type 0 where
    pub valid : IsValidSignal s
    pub own : s.source ≡ source
    pub supported : supports r source s.type ≡ true

  pub accept_signals-IsAccepted :
      (i : ℕ) (ss : List (Signal F)) (u : Unit) → accept_signals i ss ≡ ok u → All IsAccepted ss
  unfolding accept_signals
  accept_signals-IsAccepted i [] u h = tt
  accept_signals-IsAccepted i (s ∷ ss) u h = elim (Option-cases (validate_signal s)) [
    | inr (e, bad) ↦ ground (arith, bad)
    | inl good ↦
        let h' =
          subst
            (λ o.
              (elim o [
                | some e ↦ err (bad_signal i e)
                | none ↦
                    if not (bytes_eq s.source source)
                    then err (foreign_signal i)
                    else if not (supports r source s.type)
                    then err (undeclared_signal i)
                    else accept_signals (suc i) ss
              ])
              ≡ ok u)
            good h in
        let own : bytes_eq s.source source ≡ true = ground arith in
        let supported : supports r source s.type ≡ true = ground arith in
        (
          record {
            valid = (validate_signal-IsValidSignal s).0 good;
            own = bytes_eq→eq s.source source own;
            supported = supported;
          },
          accept_signals-IsAccepted (suc i) ss u (ground arith),
        )
  ]

-- the loop over the declared coverage, of which the first is the i-th
unfoldable pub accept_coverage :
    CapabilityRegistry
    → Bytes
    → ℕ
    → List SignalType
    → List CapabilityCoverage
    → Result ObservationError (Unit {0})
accept_coverage r source i declared [] = ok tt
accept_coverage r source i declared (c ∷ cs) = elim (validate_coverage c) [
  | some e ↦ err (bad_coverage i e)
  | none ↦
      if has c.signal_type declared
      then err (repeated_coverage c.signal_type)
      else if not (supports r source c.signal_type)
      then err (undeclared_coverage i)
      else accept_coverage r source (suc i) (c.signal_type ∷ declared) cs
]

module _ {F : Type 0} ⦃fl : Float64 F⦄ ⦃tx : Text⦄ where
  -- validateObservation
  unfoldable pub validate_observation :
      Bytes → Observation F → CapabilityRegistry → Result ObservationError (Unit {0})
  validate_observation source o r =
      if not (bytes_eq o.source source)
      then err (wrong_source o.source)
      else do _ ← accept_signals r source 0 o.signals; accept_coverage r source 0 [] o.capabilities

  pub validate_observation-IsAccepted :
      (source : Bytes) (o : Observation F) (r : CapabilityRegistry) (u : Unit)
      → validate_observation source o r ≡ ok u
      → (o.source ≡ source) × All (IsAccepted r source) o.signals
  unfolding validate_observation
  validate_observation-IsAccepted source o r u h =
      let own : bytes_eq o.source source ≡ true = ground arith in
      let (v, e, h') = >>=-eq-ok (accept_signals r source 0 o.signals) _ (rw own at h) in
      (bytes_eq→eq o.source source own, accept_signals-IsAccepted r source 0 o.signals v e)
