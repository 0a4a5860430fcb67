-- ===== src/Scanner/Completer.antt =====
-- buildCapabilityCompleter of internal/scanner/scanner.go.
pub mod Backed
use hemera.Base.{
  ℕ, suc, ◌≡◌, refl, ◌⊎◌, inl, inr, Bool, true, false, not, ◌||◌, Bytes, bytes_eq, has, Option,
  some, none, if◌then◌else◌, List, [], ◌∷◌, Table, lookup, put, or_zero, length, ◌==◌,
}
use hemera.Model.{SignalType}
use hemera.Analysis.{
  Observation, CapabilityCoverage, CapabilityStatus, complete, incomplete, unsupported,
}
use hemera.Scanner.{AnalyzerStatus, AnalyzerResult, status_complete, status_partial, status_failed}

abbrev is_complete_status : AnalyzerStatus → Bool
is_complete_status status_complete = true
is_complete_status status_partial = false
is_complete_status status_failed = false

abbrev is_complete : CapabilityStatus → Bool
is_complete complete = true
is_complete incomplete = false
is_complete (unsupported _) = false

-- The maps declared, statuses and capabilityAware; the set of the latter is a list.
pub record Completeness : Type 0 where
  pub declared : Table (Table Bool)
  pub statuses : Table Bool
  pub aware : List Bytes

abbrev pub nothing_complete : Completeness
nothing_complete = record { declared = []; statuses = []; aware = [] }

-- the loop over the declared coverage of one analyzer
unfoldable pub declare_coverage :
    Bytes → List CapabilityCoverage → Table (Table Bool) → Table (Table Bool)
declare_coverage source [] t = t
declare_coverage source (c ∷ cs) t =
    declare_coverage source cs (
      put c.signal_type (put source (is_complete c.status) (or_zero [] (lookup c.signal_type t))) t)

module _ {E F : Type 0} where
  -- one round of the loop over the analyzers
  abbrev pub add_analyzer : AnalyzerResult E F → Completeness → Completeness
  add_analyzer a t = record {
    declared = declare_coverage a.observation.source a.observation.capabilities t.declared;
    statuses = put a.observation.source (is_complete_status a.status) t.statuses;
    aware =
        if not (length a.observation.capabilities == 0)
        then a.observation.source ∷ t.aware
        else t.aware;
  }

  unfoldable pub add_analyzers : List (AnalyzerResult E F) → Completeness → Completeness
  add_analyzers [] t = t
  add_analyzers (a ∷ rest) t = add_analyzers rest (add_analyzer a t)

-- the closure that buildCapabilityCompleter returns
abbrev pub is_complete_in : Completeness → Bytes → SignalType → Bool
is_complete_in t source signal_type =
    if has source t.aware
    then or_zero false (lookup source (or_zero [] (lookup signal_type t.declared)))
    else or_zero false (lookup source t.statuses)

-- buildCapabilityCompleter
unfoldable pub build_capability_completer :
    {E F : Type 0} → List (AnalyzerResult E F) → Bytes → SignalType → Bool
build_capability_completer analyzers = is_complete_in (add_analyzers analyzers nothing_complete)
