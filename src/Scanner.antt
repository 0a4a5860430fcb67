-- ===== src/Scanner.antt =====
-- internal/scanner/scanner.go: the analyzer pipeline. This file has the types and New; its children the
-- observations that Scan accepts, the run of the analyzers, the coverage of the rules and the scan of
-- several pages. An analyzer is an interface of the source: here `observe` is any function of the world
-- `W` that the scan meets, the target and the observations so far.
pub mod Accept
pub mod Declared
pub mod Analyzers
pub mod Ready
pub mod Completer
pub mod Run
pub mod Coverage
pub mod Scan
pub mod Pages
use hemera.Base.{
  ℕ, suc, ◌+◌, Bool, true, false, ◌&&◌, ◌||◌, not, Bytes, bytes_eq, has, Option, some, none, Result,
  ok, err, ◌>>=◌, wrap_error, if◌then◌else◌, List, [], ◌∷◌, ◌++◌, length, ◌==◌, map,
}
use hemera.Float.{Float64}
use hemera.Text.{Text}
use hemera.Model.{SignalType, Signal, is_valid_type}
use hemera.Sorted.{sort_strings}
use hemera.Analysis.{Capability, Observation, supported_signal_types}
use hemera.Rules.Schema.{RuleSet}
use hemera.Rules.Validate.{SchemaError}
use hemera.Rules.Validate.Document.{validate_rule_set}
use hemera.Rules.Capabilities.{
  CapabilityRegistry, RegistryError, new_capability_registry, default_capability_registry,
  validate_rule_set_capabilities,
}

-- FailurePolicy is a uint8: other values than the two constants are possible.
abbrev pub failure_policy_abort : ℕ
failure_policy_abort = 0

abbrev pub failure_policy_continue : ℕ
failure_policy_continue = 1

pub data AnalyzerStatus : Type 0 where
  status_complete status_partial status_failed : AnalyzerStatus

pub record Target (F : Type 0) : Type 0 where
  pub url : Bytes
  pub prior : List (Observation F)

pub record Analyzer (W E F : Type 0) : Type 0 where
  pub source : Bytes
  pub capabilities : List SignalType
  pub observe : W → Target F → Observation F × Option E

pub record AnalyzerConfig (W E F : Type 0) : Type 0 where
  pub analyzer : Option (Analyzer W E F)
  pub failure_policy : ℕ

pub record Config (W E F : Type 0) : Type 0 where
  pub analyzers : List (AnalyzerConfig W E F)
  pub rule_set : RuleSet F

pub record ConfiguredAnalyzer (W E F : Type 0) : Type 0 where
  pub analyzer : Analyzer W E F
  pub source : Bytes
  pub policy : ℕ

-- The observer of the progress is the list of the events that it receives.
pub record Scanner (W E F : Type 0) : Type 0 where
  pub analyzers : List (ConfiguredAnalyzer W E F)
  pub rule_set : RuleSet F
  pub capability : CapabilityRegistry

pub record AnalyzerResult (E F : Type 0) : Type 0 where
  pub observation : Observation F
  pub status : AnalyzerStatus
  pub failure : Option E

pub data ConfigError : Type 0 where
  no_analyzers : ConfigError
  invalid_rule_set : SchemaError → ConfigError
  production_capabilities analyzer_capabilities unsupported_rules : RegistryError → ConfigError
  missing_analyzer unsupported_policy missing_source untrimmed_source : ℕ → ConfigError
  duplicate_source no_capabilities repeated_capability off_contract : Bytes → ConfigError
  invalid_capability : Bytes → ℕ → ConfigError

-- The loop over the sorted capabilities of one analyzer, from position `i` and after `last`.
unfoldable pub declare_capabilities :
    Bytes → ℕ → Option SignalType → List SignalType → Result ConfigError (List Capability)
declare_capabilities source i last [] = ok []
declare_capabilities source i last (t ∷ ts) =
    if not (is_valid_type t)
    then err (invalid_capability source i)
    else if (elim last [ none ↦ false | some l ↦ bytes_eq t l ])
    then err (repeated_capability source)
    else (declare_capabilities source (suc i) (some t) ts) >>= λ rest.
        ok (record { source = source; signal_type = t } ∷ rest)

-- slices.Equal
unfoldable pub same_strings : List Bytes → List Bytes → Bool
same_strings [] [] = true
same_strings (s ∷ ss) (t ∷ ts) = bytes_eq s t && same_strings ss ts
same_strings _ _ = false

-- The local variables of the loop of New.
pub record Configured (W E F : Type 0) : Type 0 where
  pub analyzers : List (ConfiguredAnalyzer W E F)
  pub sources : List Bytes
  pub declarations : List Capability

-- the test against the production contract
abbrev pub contract_error : Bytes → List SignalType → Option ConfigError
contract_error source advertised =
    let implemented = supported_signal_types source in
    if not (length implemented == 0) && not (same_strings advertised implemented)
    then some (off_contract source)
    else none

abbrev pub refuse : {A : Type 0} → Option ConfigError → Result ConfigError A → Result ConfigError A
refuse (some e) next = err e
refuse none next = next

module _ {W E F : Type 0} ⦃tx : Text⦄ where
  abbrev pub configure_named :
      AnalyzerConfig W E F → Analyzer W E F → ℕ → List Bytes → Option ConfigError
  configure_named entry a i sources =
      let source = tx.trim_space a.source in
      if not (entry.failure_policy == failure_policy_abort)
        && not (entry.failure_policy == failure_policy_continue)
      then some (unsupported_policy i)
      else if bytes_eq source []
      then some (missing_source i)
      else if not (bytes_eq source a.source)
      then some (untrimmed_source i)
      else if has source sources
      then some (duplicate_source source)
      else if length a.capabilities == 0
      then some (no_capabilities source)
      else none

  -- one round of the loop of New
  unfoldable pub configure_analyzer :
      ℕ → AnalyzerConfig W E F → Configured W E F → Result ConfigError (Configured W E F)
  configure_analyzer i entry st = elim entry.analyzer [
    | none ↦ err (missing_analyzer i)
    | some a ↦
        let source = tx.trim_space a.source in
        let advertised = sort_strings a.capabilities in
        refuse (configure_named entry a i st.sources) (
          (declare_capabilities source 0 none advertised) >>= λ declared.
          refuse (contract_error source advertised) (
            ok (record {
              analyzers =
                  st.analyzers
                  ++ (record { analyzer = a; source = source; policy = entry.failure_policy } ∷ []);
              sources = source ∷ st.sources;
              declarations = st.declarations ++ declared;
            })))
  ]

  unfoldable pub configure_analyzers :
      ℕ → List (AnalyzerConfig W E F) → Configured W E F → Result ConfigError (Configured W E F)
  configure_analyzers i [] st = ok st
  configure_analyzers i (entry ∷ entries) st =
      (configure_analyzer i entry st) >>= configure_analyzers (suc i) entries

  -- New
  unfoldable pub new_scanner : ⦃fl : Float64 F⦄ → Config W E F → Result ConfigError (Scanner W E F)
  new_scanner config = if length config.analyzers == 0 then err no_analyzers else do
    _ ← wrap_error invalid_rule_set (validate_rule_set config.rule_set)
    defaults ← wrap_error production_capabilities default_capability_registry
    st ←
        configure_analyzers 0 config.analyzers
          (record { analyzers = []; sources = []; declarations = defaults.capabilities })
    registry ← wrap_error analyzer_capabilities (new_capability_registry st.declarations)
    _ ← wrap_error unsupported_rules (validate_rule_set_capabilities registry config.rule_set)
    ok (record { analyzers = st.analyzers; rule_set = config.rule_set; capability = registry })

-- Scanner.Sources
abbrev pub sources_of : {W E F : Type 0} → Scanner W E F → List Bytes
sources_of s = map (λ c. c.source) s.analyzers
