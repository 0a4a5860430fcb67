-- ===== src/Tests/Scans.antt =====
-- A scanner with one analyzer, which sees one cookie, and scans of its page.
use hemera.Base.{
  ℕ, arith, ◌==◌, if◌then◌else◌, ◌≡◌, ◌↔◌, ◌⊎◌, refl, true, false, Bool, Bytes, bytes, bytes_eq,
  bytes_lt, has, lookup, put, Option, some, none, Result, ok, err, List, [], ◌∷◌, In, map, Table,
  length, take,
}
use hemera.Float.Fixed.{Fixed, plus, fixed_float}
use hemera.Model.{is_valid_type, validate_signal}
use hemera.Analysis.{
  supported_signal_types, types_of_source, implemented_capabilities, sort_capabilities,
  insert_capability, capability_lt, Observation, kinds, complete, validate_coverage,
}
use hemera.Sorted.{sort_strings, insert_string}
use hemera.Rules.Capabilities.{
  CapabilityRegistry, default_capability_registry, new_capability_registry, add_capabilities,
  validate_rule_set_capabilities, validate_rules_capabilities, validate_evidence_capabilities,
  validate_condition_capabilities, validate_evidence_capability, supports, capable_sources,
}
use hemera.Rules.Cache.{prepare_evidence, evidence_matches, field, raw_field}
use hemera.Rules.Pattern.{prepare_text_pattern, pattern_matches, needs_case_fold}
use hemera.Rules.Match.{strongest_match, scan_signals, stronger_signal}
use hemera.Rules.Coverage.{matched, CoverageResult, cover_condition, evaluate_condition_coverage}
use hemera.Rules.Validate.Document.Accepted.{validate_rule_set-IsAcyclic}
use hemera.Scoring.{Detection}
use hemera.Scanner.{
  Configured, configure_analyzers, configure_analyzer, declare_capabilities, same_strings, Scanner,
  Config, new_scanner, Analyzer, AnalyzerResult, status_complete, failure_policy_abort,
}
use hemera.Scanner.Completer.{build_capability_completer, add_analyzers, declare_coverage}
use hemera.Scanner.Completer.Backed.{Declares, build_capability_completer-Declares}
use hemera.Scanner.Accept.{validate_observation, accept_signals, accept_coverage, claim_kinds}
use hemera.Scanner.Run.{Moment, ScanEvent, accept_observation, run_analyzer, run_analyzers}
use hemera.Scanner.Coverage.{report_as, condition_results, build_detection_coverage}
use hemera.Scanner.Coverage.Exact.{coverage_by, tables_of, build_detection_coverage-exact}
use hemera.Scanner.Scan.{ScanResult, conclude_scan, scan}
use hemera.Scanner.Scan.Sound.{IsScanOf, scan-IsScanOf}
use hemera.Scanner.Ready.{IsReady, new_scanner-IsReady}
use hemera.Scanner.Pages.{every_page, scan_pages, scan_pages-prefix}
use hemera.Tests.Scores.{ascii_text, document, rule_set, accepted, seen, evaluated}

abbrev observation : Observation Fixed
observation = record {
  source = bytes "b";
  signals = seen ∷ [];
  warnings = [];
  capabilities = record { signal_type = bytes "cookie"; status = complete } ∷ [];
  metadata = record { http = none; network = none };
}

abbrev analyzer : Analyzer ℕ Bytes Fixed
analyzer = record {
  source = bytes "b";
  capabilities = bytes "cookie" ∷ [];
  observe = λ w t. (observation, none);
}

abbrev scanner : Scanner ℕ Bytes Fixed
scanner = record {
  analyzers =
      record { analyzer = analyzer; source = bytes "b"; policy = failure_policy_abort } ∷ [];
  rule_set = rule_set;
  capability = record {
    capabilities = record { source = bytes "b"; signal_type = bytes "cookie" } ∷ [];
    by_type = (bytes "cookie", bytes "b" ∷ []) ∷ [];
    by_source = (bytes "b", bytes "cookie" ∷ []) ∷ [];
  };
}

-- a context that never ends
abbrev quiet : ℕ → Moment → Option Bytes
quiet w m = none

abbrev is_ok : {E A : Type 0} → Result E A → Bool
is_ok (ok _) = true
is_ok (err _) = false

both_of :
    {B E A : Type 0} (x : B × Result E A) → is_ok x.1 ≡ true → (b : B) × (a : A) × (x ≡ (b, ok a))
both_of (b, ok a) h = (b, a, refl)
both_of (b, err e) h = cc

abbrev page : Bytes
page = bytes "https://a.test/"

abbrev observed : List (AnalyzerResult Bytes Fixed)
observed = record { observation = observation; status = status_complete; failure = none } ∷ []

abbrev detections : List (Detection Fixed)
detections = evaluated.0

abbrev proof_by_cookie : CoverageResult Fixed
proof_by_cookie = record {
  state = matched;
  can_be_satisfied = true;
  potential_evidence =
      record {
        id = bytes "e1";
        group = [];
        score = plus 7200;
        incomplete_sources = [];
        is_unknown = false;
      }
      ∷ [];
  incomplete_sources = [];
  required_sources = bytes "b" ∷ [];
}

abbrev table : Table (CoverageResult Fixed)
table = (bytes "a", proof_by_cookie) ∷ (bytes "b", proof_by_cookie) ∷ []

filled :
    condition_results {E = Bytes} scanner.capability
      (build_capability_completer observed)
      (seen ∷ [])
      document
      []
    ≡ ok table
unfolding condition_results evaluate_condition_coverage cover_condition strongest_match scan_signals
    stronger_signal prepare_evidence prepare_text_pattern evidence_matches field raw_field
    pattern_matches needs_case_fold bytes_eq bytes_lt capable_sources lookup put
filled = refl

build_detection_coverage-exact_example :
    build_detection_coverage document detections observed (seen ∷ []) scanner.capability
    ≡ ok (
        map
          (λ r. report_as r.id (coverage_by (tables_of document detections table) 3 r.id))
          document)
build_detection_coverage-exact_example =
    build_detection_coverage-exact document detections observed (seen ∷ []) scanner.capability table
      (validate_rule_set-IsAcyclic rule_set accepted) filled

covered :
    build_detection_coverage document detections observed (seen ∷ []) scanner.capability
    ≡ ok (
        map
          (λ r. report_as r.id (coverage_by (tables_of document detections table) 3 r.id))
          document)
covered =
    build_detection_coverage-exact document detections observed (seen ∷ []) scanner.capability table
      (validate_rule_set-IsAcyclic rule_set accepted) filled

scan_ends : is_ok (scan scanner quiet 0 page).1 ≡ true
unfolding scan conclude_scan run_analyzers run_analyzer accept_observation validate_observation
    accept_signals accept_coverage claim_kinds kinds validate_coverage validate_signal is_valid_type
    supports lookup has bytes_eq
scan_ends = rw (evaluated.1) (rw covered refl)

scanned :
    (events : List ScanEvent) × (result : ScanResult Bytes Fixed) × (scan scanner quiet 0 page
      ≡ (events, ok result))
scanned = both_of (scan scanner quiet 0 page) scan_ends

completed : build_capability_completer observed (bytes "b") (bytes "cookie") ≡ true
unfolding build_capability_completer add_analyzers declare_coverage lookup put has bytes_eq
completed = refl

scan-IsScanOf_example : IsScanOf scanner 0 page scanned.0 scanned.1
scan-IsScanOf_example = scan-IsScanOf scanner quiet 0 page scanned.0 scanned.1 scanned.2

build_capability_completer-Declares_example :
    (a : AnalyzerResult Bytes Fixed) × In a observed
    × (a.observation.source ≡ bytes "b")
    × (Declares (bytes "cookie") a.observation.capabilities
        ⊎ ((a.observation.capabilities ≡ []) × (a.status ≡ status_complete)))
build_capability_completer-Declares_example =
    build_capability_completer-Declares observed (bytes "b") (bytes "cookie") completed

-- a context that ends ahead of the second page
abbrev ending : ℕ → Option Bytes
ending i = if i == 0 then none else some (bytes "canceled")

abbrev worlds : ℕ → ℕ
worlds i = i

scan_pages-prefix_example :
    ((scan_pages scanner quiet worlds ending (page ∷ page ∷ [])).0
      ≡ take 1 (every_page scanner quiet worlds ending 0 (page ∷ page ∷ [])))
    × (((scan_pages scanner quiet worlds ending (page ∷ page ∷ [])).1 ≡ none)
        ↔ (1 ≡ length (page ∷ page ∷ [])))
scan_pages-prefix_example =
    scan_pages-prefix scanner quiet worlds ending (page ∷ page ∷ []) 1 (omega arith) (omega arith)
      (refl, (bytes "canceled", refl))

abbrev config : Config ℕ Bytes Fixed
config = record {
  analyzers = record { analyzer = some analyzer; failure_policy = failure_policy_abort } ∷ [];
  rule_set = rule_set;
}

unfoldable ok_of : {E A : Type 0} (r : Result E A) → is_ok r ≡ true → (a : A) × (r ≡ ok a)
ok_of (ok a) h = (a, refl)
ok_of (err e) h = cc

unfoldable defaults : (r : CapabilityRegistry) × (default_capability_registry ≡ ok r)
unfolding implemented_capabilities sort_capabilities insert_capability capability_lt sort_strings
    insert_string default_capability_registry new_capability_registry add_capabilities supports
    lookup put has bytes_eq bytes_lt is_valid_type
defaults = ok_of default_capability_registry refl

abbrev at_first : Configured ℕ Bytes Fixed
at_first = record { analyzers = []; sources = []; declarations = defaults.0.capabilities }

unfoldable read :
    (st : Configured ℕ Bytes Fixed) × (configure_analyzers 0 config.analyzers at_first ≡ ok st)
unfolding configure_analyzers configure_analyzer declare_capabilities same_strings
    supported_signal_types types_of_source implemented_capabilities sort_capabilities
    insert_capability capability_lt sort_strings insert_string has bytes_eq bytes_lt is_valid_type
read = ok_of (configure_analyzers 0 config.analyzers at_first) refl

unfoldable registered :
    (r : CapabilityRegistry) × (new_capability_registry read.0.declarations ≡ ok r)
unfolding defaults read ok_of configure_analyzers configure_analyzer declare_capabilities
    same_strings supported_signal_types types_of_source implemented_capabilities sort_capabilities
    insert_capability capability_lt sort_strings insert_string default_capability_registry
    new_capability_registry add_capabilities supports lookup put has bytes_eq bytes_lt is_valid_type
registered = ok_of (new_capability_registry read.0.declarations) refl

able_from :
    (r : CapabilityRegistry)
    → (length r.capabilities == 0) ≡ false
    → validate_rules_capabilities r document ≡ ok tt
    → validate_rule_set_capabilities r rule_set ≡ ok tt
unfolding validate_rule_set_capabilities
able_from r h h' = rw accepted (rw h h')

able : validate_rule_set_capabilities registered.0 rule_set ≡ ok tt
unfolding registered defaults read ok_of configure_analyzers configure_analyzer declare_capabilities
    same_strings supported_signal_types types_of_source implemented_capabilities sort_capabilities
    insert_capability capability_lt sort_strings insert_string default_capability_registry
    new_capability_registry add_capabilities supports lookup put has bytes_eq bytes_lt is_valid_type
    validate_rules_capabilities validate_evidence_capabilities validate_condition_capabilities
    validate_evidence_capability capable_sources
able = able_from registered.0 refl refl

new_scanner_from :
    (d r : CapabilityRegistry) (st : Configured ℕ Bytes Fixed)
    → default_capability_registry ≡ ok d
    → configure_analyzers 0 config.analyzers
        (record { analyzers = []; sources = []; declarations = d.capabilities })
      ≡ ok st
    → new_capability_registry st.declarations ≡ ok r
    → validate_rule_set_capabilities r rule_set ≡ ok tt
    → (s : Scanner ℕ Bytes Fixed) × (new_scanner config ≡ ok s)
unfolding new_scanner
new_scanner_from d r st e₁ e₂ e₃ e₄ = (
  record { analyzers = st.analyzers; rule_set = rule_set; capability = r },
  rw accepted (rw e₁ (rw e₂ (rw e₃ (rw e₄ refl)))),
)

ready : (s : Scanner ℕ Bytes Fixed) × (new_scanner config ≡ ok s)
ready = new_scanner_from defaults.0 registered.0 read.0 defaults.1 read.1 registered.1 able

new_scanner-IsReady_example : IsReady config ready.0
new_scanner-IsReady_example = new_scanner-IsReady config ready.0 ready.1
