-- ===== src/Tests/Captures.antt =====
-- A capture of one request, its response and the page.
use hemera.Base.{
  delete_key, Result, Bool, ok, err, In, All, inl, inr, ◌↔◌, bytes_lt, has, ℕ, arith, ◌≡◌, refl,
  true, false, Bytes, bytes, bytes_eq, lookup, put, some, List, [], ◌∷◌, length, zero, suc,
}
use hemera.Float.Fixed.{Fixed, plus, fixed_float}
use hemera.Browser.Capture.{
  CaptureLibrary, CaptureCollector, ResponseObservation, new_collector, url_class, classify_url,
  warn, has_unsafe_text, clean_metadata,
}
use hemera.Browser.Capture.Items.{
  begin_request, add_request, append_response, append_request, append_transaction, open_transaction,
  observe_response, finish_request, fail_request, patch_transaction,
}
use hemera.Browser.Capture.Histories.{
  CaptureEvent, begins, responds, finishes, handle, handle_all, handle_all-IsBounded,
}
use hemera.Browser.Capture.Bounds.{IsBounded}
use hemera.Browser.Capture.Complete.{reported, all_fit, handle_all_complete}
use hemera.Browser.Capture.Oversized.{oversized_requests}
use hemera.Browser.Capture.Snapshot.{BoundedDomSnapshot, snapshot_bounded}
use hemera.Browser.Capture.Snapshot.Limits.{IsLimited, snapshot_bounded-IsLimited}
use hemera.Model.{Signal, IsValidSignal, validate_signal, is_valid_type}
use hemera.Rules.Coverage.{decimal_from}
use hemera.Scanner.Completer.Backed.{Declares}
use hemera.Browser.Capture.{CaptureResponse}
use hemera.Browser.Capture.Snapshot.{clean_resource_urls, sorted_transactions, insert_transaction}
use hemera.Browser.Capture.Snapshot.Cookies.{sort_cookies, cookie_set}
use hemera.Browser.Analyzer.{
  is_empty, FinishedCapture, covers, browser_capability_coverage, response_signal,
  normalize_capture, capture_signals, request_signals, transaction_signals, form_signals,
  response_signals, dom_signals, resource_signals, cookie_signals, sort_signals, insert_signal,
  signal_lt, signal_rank, unique_signals, same_signal,
}
use hemera.Browser.Analyzer.Built.{IsBrowserSignal}
use hemera.Browser.Analyzer.Exact.{normalize_capture_exact}
use hemera.Browser.Analyzer.Responses.{reported_responses}
use hemera.Tests.Scores.{ascii_text}

-- A stand-in for net/url that takes the whole text for the host.
abbrev library : CaptureLibrary Fixed
library = record {
  parse = λ raw. some (record {
    scheme = bytes "https";
    user = [];
    host = raw;
    raw_query = [];
    force_query = false;
    fragment = [];
    raw_fragment = [];
    rest = [];
  });
  to_string = λ u. u.host;
  is_utf8 = λ s. true;
  round = λ x. x;
  to_int = λ x. 0;
}

abbrev answer : ResponseObservation Fixed
answer = record {
  raw_url = bytes "a.test";
  status = 200;
  mime_type = bytes "text/html";
  resource_type = bytes "Document";
  protocol = bytes "h2";
  connection_reused = false;
  request_time = plus 0;
  timing = record {
    queue_ms = 0;
    dns_ms = 3;
    connect_ms = 5;
    tls_ms = 7;
    ttfb_ms = 11;
    total_ms = 0;
  };
}

abbrev events : List (CaptureEvent Fixed)
events =
    begins (bytes "1") (bytes "GET") (bytes "a.test") (bytes "Document") (plus 0)
    ∷ responds (bytes "1") answer
    ∷ finishes (bytes "1") 512 (plus 100)
    ∷ []

abbrev captured : CaptureCollector Fixed
captured = handle_all library events new_collector

handle_all-IsBounded_example : IsBounded captured
handle_all-IsBounded_example = handle_all-IsBounded library events

captured-IsBounded : IsBounded captured
captured-IsBounded = handle_all-IsBounded library events

nothing_left_out : captured.truncated.responses ≡ false
unfolding handle_all handle begin_request observe_response finish_request append_response
    append_request append_transaction open_transaction fail_request delete_key patch_transaction
    classify_url url_class warn has_unsafe_text clean_metadata lookup put bytes_eq
nothing_left_out = refl

handle_all_complete_example :
    (captured.responses ≡ reported library events) × (all_fit library events ≡ true)
handle_all_complete_example = handle_all_complete library events nothing_left_out

-- a URL of 8200 bytes
abbrev repeat_byte : ℕ → Bytes
repeat_byte zero = []
repeat_byte (suc n) = b'x' ∷ repeat_byte n

length-repeat_byte : (n : ℕ) → length (repeat_byte n) ≡ n
length-repeat_byte zero = refl
length-repeat_byte (suc n) = omega (arith, length-repeat_byte n)

abbrev long_url : Bytes
long_url = repeat_byte 8200

abbrev begun : CaptureCollector Fixed
begun =
    begin_request library (bytes "1") (bytes "GET") long_url (bytes "Fetch") (plus 0) new_collector

abbrev added : CaptureCollector Fixed
added = add_request library (bytes "GET") long_url (bytes "Fetch") new_collector

oversized_requests_example :
    (begun.requests ≡ (new_collector {F = Fixed}).requests)
    × (begun.truncated ≡ (new_collector {F = Fixed}).truncated)
    × (added.requests ≡ (new_collector {F = Fixed}).requests)
    × (added.truncated.requests ≡ true)
oversized_requests_example =
    oversized_requests library (bytes "1") (bytes "GET") long_url (bytes "Fetch") (plus 0)
      new_collector (omega (arith, length-repeat_byte 8200))

abbrev page : BoundedDomSnapshot
page = record {
  dom = bytes "<html></html>";
  script_urls = bytes "a.test/s.js" ∷ [];
  iframe_urls = [];
  dom_truncated = false;
  script_truncated = false;
  iframe_truncated = false;
  traversal_truncated = false;
  url_truncated = false;
}

snapshot_bounded-IsLimited_example :
    IsLimited (snapshot_bounded library (λ s. false) (bytes "a.test") page [] captured).0
snapshot_bounded-IsLimited_example =
    snapshot_bounded-IsLimited library (λ s. false) (bytes "a.test") page [] captured
      captured-IsBounded

abbrev finished : FinishedCapture
finished = record {
  result = (snapshot_bounded library (λ s. false) (bytes "a.test") page [] captured).0;
  form_submissions = [];
  navigation_incomplete = false;
  dom_incomplete = false;
  cookies_incomplete = false;
}

abbrev is_ok : {E A : Type 0} → Result E A → Bool
is_ok (ok _) = true
is_ok (err _) = false

value_of : {E A : Type 0} (x : Result E A) → is_ok x ≡ true → (a : A) × (x ≡ ok a)
value_of (ok a) h = (a, refl)
value_of (err e) h = cc

normalizes : is_ok (normalize_capture {F = Fixed} (λ s. s) finished) ≡ true
unfolding normalize_capture capture_signals request_signals transaction_signals form_signals
    response_signals dom_signals resource_signals cookie_signals sort_signals insert_signal
    signal_lt signal_rank unique_signals same_signal validate_signal is_valid_type decimal_from
    snapshot_bounded clean_resource_urls sorted_transactions insert_transaction sort_cookies
    cookie_set handle_all handle begin_request observe_response finish_request append_response
    append_request append_transaction open_transaction fail_request delete_key patch_transaction
    classify_url url_class warn has_unsafe_text clean_metadata lookup put has bytes_eq bytes_lt
normalizes = refl

normalized :
    (signals : List (Signal Fixed)) × (normalize_capture {F = Fixed} (λ s. s) finished ≡ ok signals)
normalized = value_of (normalize_capture {F = Fixed} (λ s. s) finished) normalizes

normalize_capture_exact_example :
    All IsValidSignal normalized.0
    × All IsBrowserSignal normalized.0
    × ((s : Signal Fixed) → In s normalized.0 ↔ In s (capture_signals (λ s. s) finished))
normalize_capture_exact_example =
    normalize_capture_exact (λ s. s) finished normalized.0 normalized.1

abbrev kept : CaptureResponse
kept = record {
  url = bytes "a.test";
  status = 200;
  mime_type = bytes "text/html";
  resource_type = bytes "Document";
}

declared : Declares (bytes "network_response") (browser_capability_coverage finished false)
unfolding browser_capability_coverage snapshot_bounded handle_all handle begin_request
    observe_response finish_request append_response append_request append_transaction
    open_transaction fail_request delete_key patch_transaction classify_url url_class warn
    has_unsafe_text clean_metadata lookup put bytes_eq
declared = (covers (bytes "network_response") false, inr (inl refl), refl, refl)

was_reported : In kept (reported library events)
unfolding url_class has_unsafe_text clean_metadata bytes_eq
was_reported = inl refl

kept_has_url : is_empty kept.url ≡ false
unfolding bytes_eq
kept_has_url = refl

reported_responses_example : In (response_signal {F = Fixed} kept) normalized.0
reported_responses_example =
    reported_responses library (λ s. false) (λ s. s) events (bytes "a.test") page [] finished
      normalized.0 kept refl normalized.1 declared was_reported refl kept_has_url
