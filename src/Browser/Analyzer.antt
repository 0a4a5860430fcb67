-- ===== src/Browser/Analyzer.antt =====
-- internal/browser/analyzer.go: the signals and the declared coverage of one browser navigation. `to_upper`
-- stands for strings.ToUpper.
pub mod Built
pub mod Exact
pub mod Responses
use hemera.Base.{
  ℕ, suc, ltb, ◌==◌, Bool, true, false, ◌&&◌, ◌||◌, not, Bytes, bytes, bytes_eq, bytes_lt, Option,
  some, none, Result, ok, err, ◌>>=◌, if◌then◌else◌, List, [], ◌∷◌, ◌++◌,
}
use hemera.Float.{Float64, float_ne}
use hemera.Text.{Text}
use hemera.Model.{SignalType, Signal, SignalError, validate_signal}
use hemera.Analysis.{CapabilityCoverage, CapabilityStatus, complete, incomplete, source_browser}
use hemera.Rules.Coverage.{decimal_from}
use hemera.Browser.Capture.{CaptureRequest, CaptureResponse, CaptureTransaction}
use hemera.Browser.Capture.Snapshot.{CaptureResult}
use hemera.Browser.Capture.Snapshot.Cookies.{CaptureCookie}

pub record FormSubmission : Type 0 where
  pub action_url : Bytes
  pub method : Bytes

-- CaptureResult with the fields that are filled in after the snapshot
pub record FinishedCapture : Type 0 where
  pub result : CaptureResult
  pub form_submissions : List FormSubmission
  pub navigation_incomplete : Bool
  pub dom_incomplete : Bool
  pub cookies_incomplete : Bool

abbrev pub status_if : Bool → CapabilityStatus
status_if missing = if missing then incomplete else complete

abbrev pub covers : SignalType → Bool → CapabilityCoverage
covers t missing = record { signal_type = t; status = status_if missing }

-- browserCapabilityCoverage
unfoldable pub browser_capability_coverage : FinishedCapture → Bool → List CapabilityCoverage
browser_capability_coverage f normalization_failed =
    let r = f.result in
    let navigation = f.navigation_incomplete || normalization_failed in
    let final_url = navigation || r.final_url_incomplete in
    let dom = navigation || f.dom_incomplete in
    covers (bytes "network_request") (final_url || r.requests_truncated)
    ∷ covers (bytes "network_response") (navigation || r.responses_truncated)
    ∷ covers (bytes "page_content") (dom || r.dom_truncated || final_url)
    ∷ covers (bytes "script_url") (dom || final_url || r.script_urls_truncated)
    ∷ covers (bytes "iframe_url") (dom || final_url || r.iframe_urls_truncated)
    ∷ covers (bytes "cookie")
        (navigation || final_url || f.cookies_incomplete || r.cookies_truncated)
    ∷ []

abbrev pub is_empty : Bytes → Bool
is_empty s = bytes_eq s []

-- browserSignalRank
unfoldable pub signal_rank : SignalType → ℕ
signal_rank t =
    if bytes_eq t (bytes "network_request")
    then 0
    else if bytes_eq t (bytes "network_transaction")
    then 1
    else if bytes_eq t (bytes "network_response")
    then 2
    else if bytes_eq t (bytes "page_content")
    then 3
    else if bytes_eq t (bytes "script_url")
    then 4
    else if bytes_eq t (bytes "iframe_url")
    then 5
    else if bytes_eq t (bytes "cookie")
    then 6
    else if bytes_eq t (bytes "form_submission")
    then 7
    else 8

module _ {F : Type 0} ⦃fl : Float64 F⦄ where
  abbrev pub browser_signal : SignalType → Bytes → Bytes → Bytes → Signal F
  browser_signal t key value url = record {
    type = t;
    source = source_browser;
    key = key;
    value = value;
    url = url;
    confidence = fl.of_ℕ 1;
  }

  -- `if … { continue }` and `append(signals, …)`
  abbrev pub unless : Bool → Signal F → List (Signal F) → List (Signal F)
  unless skipped s rest = if skipped then rest else s ∷ rest

  abbrev pub response_signal : CaptureResponse → Signal F
  response_signal r =
      browser_signal (bytes "network_response") (bytes "status")
        (decimal_from (suc r.status) r.status) r.url

  unfoldable pub response_signals : List CaptureResponse → List (Signal F)
  response_signals [] = []
  response_signals (r ∷ rs) =
      unless ((r.status == 0) || is_empty r.url) (response_signal r) (response_signals rs)

  unfoldable pub form_signals : Bytes → List FormSubmission → List (Signal F)
  form_signals final_url [] = []
  form_signals final_url (f ∷ fs) =
      unless (is_empty f.action_url)
        (browser_signal (bytes "form_submission") (bytes "action") f.action_url final_url)
        (form_signals final_url fs)

  -- the loops over the script URLs and over the iframe URLs
  unfoldable pub resource_signals : SignalType → Bytes → List Bytes → List (Signal F)
  resource_signals t final_url [] = []
  resource_signals t final_url (u ∷ us) =
      unless (is_empty u) (browser_signal t (bytes "src") u final_url)
        (resource_signals t final_url us)

  unfoldable pub cookie_signals : Bytes → List CaptureCookie → List (Signal F)
  cookie_signals final_url [] = []
  cookie_signals final_url (c ∷ cs) =
      unless (is_empty c.name || is_empty c.domain)
        (browser_signal (bytes "cookie") c.name c.domain final_url) (cookie_signals final_url cs)

  unfoldable pub dom_signals : Bytes → Bytes → List (Signal F)
  dom_signals final_url dom =
      unless (is_empty dom) (browser_signal (bytes "page_content") (bytes "dom") dom final_url) []

  -- the order of sort.Slice in normalizeCapture
  unfoldable pub signal_lt : Signal F → Signal F → Bool
  signal_lt s t =
      if not (signal_rank s.type == signal_rank t.type)
      then ltb (signal_rank s.type) (signal_rank t.type)
      else if not (bytes_eq s.key t.key)
      then bytes_lt s.key t.key
      else if not (bytes_eq s.value t.value)
      then bytes_lt s.value t.value
      else bytes_lt s.url t.url

  unfoldable pub insert_signal : Signal F → List (Signal F) → List (Signal F)
  insert_signal s [] = s ∷ []
  insert_signal s (t ∷ ts) = if signal_lt t s then t ∷ insert_signal s ts else s ∷ t ∷ ts

  unfoldable pub sort_signals : List (Signal F) → List (Signal F)
  sort_signals [] = []
  sort_signals (s ∷ ss) = insert_signal s (sort_signals ss)

  -- ==, on model.Signal
  unfoldable pub same_signal : Signal F → Signal F → Bool
  same_signal s t =
      bytes_eq s.type t.type
      && bytes_eq s.source t.source
      && bytes_eq s.key t.key
      && bytes_eq s.value t.value
      && bytes_eq s.url t.url
      && not (float_ne s.confidence t.confidence)

  abbrev pub repeats_last : Option (Signal F) → Signal F → Bool
  repeats_last none s = false
  repeats_last (some last) s = same_signal last s

  module _ ⦃tx : Text⦄ where
    -- the last loop of normalizeCapture, after the signal `last`
    unfoldable pub unique_signals :
        Option (Signal F) → List (Signal F) → Result SignalError (List (Signal F))
    unique_signals last [] = ok []
    unique_signals last (s ∷ ss) =
        let skipped = unique_signals last ss in
        let kept = unique_signals (some s) ss in
        elim (validate_signal s) [
          | some e ↦ err e
          | none ↦ if repeats_last last s then skipped else kept >>= λ rest. ok (s ∷ rest)
        ]

    module _ (to_upper : Bytes → Bytes) where
      unfoldable pub request_signals : Bytes → List CaptureRequest → List (Signal F)
      request_signals final_url [] = []
      request_signals final_url (r ∷ rs) =
          let method = to_upper (tx.trim_space r.method) in
          unless (is_empty method || is_empty r.url)
            (browser_signal (bytes "network_request") method r.url final_url)
            (request_signals final_url rs)

      unfoldable pub transaction_signals : List CaptureTransaction → List (Signal F)
      transaction_signals [] = []
      transaction_signals (t ∷ ts) =
          let method = to_upper (tx.trim_space t.method) in
          unless
            (is_empty method || bytes_eq method (bytes "GET") || (t.status == 0) || is_empty t.url)
            (browser_signal (bytes "network_transaction") method
              (decimal_from (suc t.status) t.status) t.url)
            (transaction_signals ts)

      -- the signals of normalizeCapture before they are sorted
      unfoldable pub capture_signals : FinishedCapture → List (Signal F)
      capture_signals f =
          let r = f.result in
          request_signals r.final_url r.requests
          ++ (transaction_signals r.transactions
              ++ (form_signals r.final_url f.form_submissions
                  ++ (response_signals r.responses
                      ++ (dom_signals r.final_url r.dom
                          ++ (resource_signals (bytes "script_url") r.final_url r.script_urls
                              ++ (resource_signals (bytes "iframe_url") r.final_url r.iframe_urls
                                  ++ cookie_signals r.final_url r.cookies))))))

      -- normalizeCapture
      unfoldable pub normalize_capture : FinishedCapture → Result SignalError (List (Signal F))
      normalize_capture f = unique_signals none (sort_signals (capture_signals f))
