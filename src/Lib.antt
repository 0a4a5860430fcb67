-- ===== src/Lib.antt =====
-- Hemera scans a web page and says which protection services stand before it. This library is about
-- its decisions: which destinations it may reach, what a navigation may consume, which rule
-- documents it accepts, which evidence a rule finds in the signals of a scan, and how that evidence is
-- scored.
--
-- The parts and their files:
--   * pkg/model/signal.go: Model. Signals, which the analyzers produce and the rules match.
--     Model/Normalized is about Signal.Validate.
--   * internal/rules/schema.go: Rules/Schema (the document types), Rules/Validate (the constants and
--     the basic checks), Rules/Validate/Evidence (validateEvidence, validateCondition),
--     Rules/Validate/Graph (validateDependencyGraph) and Rules/Validate/Document (validateRule,
--     RuleSet.Validate).
--   * internal/rules/match.go: Rules/Pattern (prepareTextPattern and preparedPattern), Rules/Cache
--     (cachedSignal and preparedEvidence), Rules/Match (strongestMatch, evaluateCondition and the loop
--     of Match) and Rules/Match/Document (Match with the validation of its arguments). The slice of
--     cached signals that the source shares by reference is the state of a small monad.
--   * internal/rules/capability_registry.go: Rules/Capabilities; internal/rules/condition_coverage.go:
--     Rules/Coverage, which reads the registry and the matching of Rules/Match. Sorted has the sorting
--     and deduplicateSorted that these and the scanner share.
--   * internal/analysis: Analysis (capability.go, observation.go).
--   * internal/scanner: Scanner (the types, New), Scanner/Declared, Scanner/Analyzers and
--     Scanner/Ready (about New), Scanner/Accept (validateObservation),
--     Scanner/Run (the loop of Scan over the analyzers, which are any functions of the target and the
--     world), Scanner/Completer (buildCapabilityCompleter), Scanner/Coverage
--     (buildDetectionCoverage), Scanner/Scan (Scan, which joins them to Scoring/Evaluate) and
--     Scanner/Pages (multipage.go).
--   * internal/scoring/scoring.go: Scoring (the types and LevelForScore), Scoring/Contributions
--     (scorePositive, scorePenalties), Scoring/Eligibility (the closure `eligible`),
--     Scoring/Detections (scoreMatches) and Scoring/Evaluate (Evaluate, which joins it to Match).
--   * internal/networkguard: NetworkGuard/Registry and NetworkGuard/Policy (Allowed),
--     NetworkGuard/Url (ParseURL, portForURL) and NetworkGuard/Dial (resolve, Validate, DialContext).
--     NetworkGuard/Addr stands for the part of net/netip that they call.
--   * internal/browser/proxy.go: Browser/Budget, the navigationBudget of the safety proxy. A method
--     holds the mutex throughout, so a history of a budget is a list of calls in the order in which
--     they take the mutex. Browser/Budget/Copy is copyWithBudget, on a list of rounds: what the source
--     and the destination do in each. Browser/Headers has removeHopByHopHeaders, copyHeader and
--     headerSize, over any CanonicalHeaderKey and on a header in one order of its names.
--   * internal/browser/capture.go: Browser/Capture (the collector, classifyURL), Browser/Capture/Items
--     (the operations that record an event), Browser/Capture/Histories (the dispatch of
--     recordNetworkEvent in chromedp.go, and lists of events) and Browser/Capture/Snapshot
--     (snapshotBounded). The collector holds its mutex in each operation too. Browser/Analyzer is
--     internal/browser/analyzer.go: the signals and the declared coverage of a capture.
-- Base has the helpers that the parts share, and Tests the properties at concrete inputs.
--
-- An operation of the source keeps its name, in lower case with underscores, and an error is a value
-- of the part's error type. A Go map is an association list, an int a natural number where the source
-- never goes below 0 and its limits keep it far from the end of the range.
--
-- Given, not modelled: float64 is any type with the operations of Float.Float64, and the laws of
-- Float.IsOrdered, comparisons of IEEE 754, are named where a theorem takes them (Float/Fixed is
-- a concrete instance, for tests); strings.ToLower, strings.TrimSpace and regexp are Text.Text; net/url is
-- NetworkGuard.Url.UrlLibrary; the DNS resolver, the dialer and the context are
-- NetworkGuard.Dial.Resolver and NetworkGuard.Dial.Dialer; the limits of the browser's configuration
-- are Browser.Budget.Limits; url.Parse, URL.String, utf8.ValidString and math.Round are
-- Browser.Capture.CaptureLibrary, and net.ParseIP an argument.
--
-- Three walks run on fuel, all over the dependencies of rules. validateDependencyGraph has one more
-- than the number of rules, since a walk enters each rule at most once; `eligible` has one more than
-- the number of rules too, as has evalRule of the scanner, since without a cycle no chain is longer.
--
-- Not modelled: JSON decoding, the proxy's sessions and transport, the browser driver,
-- the HTTP, DNS and TLS analyzers, the reports and the terminal interface.
pub mod Base
pub mod Float
pub mod Text
pub mod Sorted
pub mod Model
pub mod Analysis
pub mod NetworkGuard
pub mod Browser
pub mod Rules
pub mod Scoring
pub mod Scanner
pub mod Tests
