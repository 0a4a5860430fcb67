-- ===== src/Browser/Capture/Snapshot.antt =====
-- snapshotBounded of internal/browser/capture.go: the final result of a capture from the collector and what
-- the page yields. snapshot, which reads the resources from the text of the page, is for tests only.
pub mod Cookies
pub mod Limits
use hemera.Base.{
  ℕ, zero, suc, ltb, leb, ◌==◌, Bool, true, false, ◌&&◌, ◌||◌, not, Bytes, bytes, bytes_eq,
  bytes_lt, Option, some, none, if◌then◌else◌, List, [], ◌∷◌, ◌++◌, length, get_elem?, take,
}
use hemera.Text.{Text}
use hemera.Browser.Capture.{
  CaptureLibrary, CaptureCollector, CaptureTransaction, CaptureRequest, CaptureResponse, UrlClass,
  accepted, rejected, oversized_dropped, max_capture_items, warning_url_limit, warn, url_class,
  classify_url,
}
use hemera.Browser.Capture.Snapshot.Cookies.{CaptureCookie, cookie_set, sort_cookies}

abbrev max_dom_bytes : ℕ
max_dom_bytes = 2097152

abbrev pub warning_dom_limit : Bytes
warning_dom_limit = bytes "final DOM reached the capture limit"

abbrev pub warning_cookie_limit : Bytes
warning_cookie_limit = bytes "browser cookie names reached the capture limit"

abbrev pub warning_script_limit : Bytes
warning_script_limit = bytes "browser script URLs reached the capture limit"

abbrev pub warning_iframe_limit : Bytes
warning_iframe_limit = bytes "browser iframe URLs reached the capture limit"

pub record BoundedDomSnapshot : Type 0 where
  pub dom : Bytes
  pub script_urls : List Bytes
  pub iframe_urls : List Bytes
  pub dom_truncated : Bool
  pub script_truncated : Bool
  pub iframe_truncated : Bool
  pub traversal_truncated : Bool
  pub url_truncated : Bool

-- CaptureResult, as far as snapshotInternal fills it in
pub record CaptureResult : Type 0 where
  pub final_url : Bytes
  pub final_url_incomplete : Bool
  pub dom : Bytes
  pub dom_truncated : Bool
  pub requests : List CaptureRequest
  pub responses : List CaptureResponse
  pub transactions : List CaptureTransaction
  pub script_urls : List Bytes
  pub iframe_urls : List Bytes
  pub cookies : List CaptureCookie
  pub warnings : List Bytes
  pub requests_truncated : Bool
  pub responses_truncated : Bool
  pub script_urls_truncated : Bool
  pub iframe_urls_truncated : Bool
  pub cookies_truncated : Bool

-- utf8.RuneStart of the byte at a position
abbrev rune_starts_at : Bytes → ℕ → Bool
rune_starts_at value i = elim (get_elem? value i) [ none ↦ true | some b ↦ ltb b 128 || leb 192 b ]

-- the loop of truncateUTF8
unfoldable pub rune_limit : Bytes → ℕ → ℕ
rune_limit value zero = zero
rune_limit value (suc n) =
    let lower = rune_limit value n in if rune_starts_at value (suc n) then suc n else lower

-- truncateUTF8
unfoldable pub truncate_utf8 : Bytes → ℕ → Bytes
truncate_utf8 value limit =
    if leb (length value) limit then value else take (rune_limit value limit) value

-- The order of sortedTransactionsLocked: field by field.
abbrev text_order : List (Bytes × Bytes) → Bool → Bool
text_order [] last = last
text_order ((a, b) ∷ rest) last = if not (bytes_eq a b) then bytes_lt a b else text_order rest last

abbrev number_order : List (ℕ × ℕ) → Bool → Bool
number_order [] last = last
number_order ((a, b) ∷ rest) last = if not (a == b) then ltb a b else number_order rest last

unfoldable pub transaction_lt : CaptureTransaction → CaptureTransaction → Bool
transaction_lt s t =
    text_order
      ((s.url, t.url)
        ∷ (s.method, t.method)
        ∷ (s.mime_type, t.mime_type)
        ∷ (s.resource_type, t.resource_type)
        ∷ (s.protocol, t.protocol)
        ∷ [])
      (number_order
        ((s.status, t.status)
          ∷ (s.wire_bytes, t.wire_bytes)
          ∷ (s.timing.queue_ms, t.timing.queue_ms)
          ∷ (s.timing.dns_ms, t.timing.dns_ms)
          ∷ (s.timing.connect_ms, t.timing.connect_ms)
          ∷ (s.timing.tls_ms, t.timing.tls_ms)
          ∷ (s.timing.ttfb_ms, t.timing.ttfb_ms)
          ∷ (s.timing.total_ms, t.timing.total_ms)
          ∷ [])
        (not s.connection_reused && t.connection_reused))

unfoldable pub insert_transaction :
    CaptureTransaction → List CaptureTransaction → List CaptureTransaction
insert_transaction t [] = t ∷ []
insert_transaction t (s ∷ ss) =
    if transaction_lt s t then s ∷ insert_transaction t ss else t ∷ s ∷ ss

-- sortedTransactionsLocked
unfoldable pub sorted_transactions : List CaptureTransaction → List CaptureTransaction
sorted_transactions [] = []
sorted_transactions (t ∷ ts) = insert_transaction t (sorted_transactions ts)

-- The local variables of cleanResourceURLs and the flag that it is given.
pub record Cleaned (F : Type 0) : Type 0 where
  pub urls : List Bytes
  pub truncated : Bool
  pub collector : CaptureCollector F

module _ {F : Type 0} (lib : CaptureLibrary F) ⦃tx : Text⦄ where
  -- one round of the loop of cleanResourceURLs, after classifyURL
  abbrev pub clean_one : Bytes → UrlClass × CaptureCollector F → Cleaned F → Cleaned F
  clean_one limit_warning (accepted url, c) st =
      if length st.urls == max_capture_items
      then record { urls = st.urls; truncated = true; collector = warn limit_warning c }
      else record { urls = st.urls ++ (url ∷ []); truncated = st.truncated; collector = c }
  clean_one limit_warning (rejected, c) st = record st { collector = c }
  clean_one limit_warning (oversized_dropped, c) st = record st { truncated = true; collector = c }

  -- cleanResourceURLs
  unfoldable pub clean_resource_urls : Bytes → List Bytes → Cleaned F → Cleaned F
  clean_resource_urls limit_warning [] st = st
  clean_resource_urls limit_warning (raw ∷ rest) st =
      clean_resource_urls limit_warning rest
        (clean_one limit_warning (classify_url lib raw st.collector) st)

abbrev warn_if : {F : Type 0} → Bool → Bytes → CaptureCollector F → CaptureCollector F
warn_if cond w c = if cond then warn w c else c

abbrev accepted_url : UrlClass → Bytes
accepted_url (accepted url) = url
accepted_url rejected = []
accepted_url oversized_dropped = []

abbrev is_accepted : UrlClass → Bool
is_accepted (accepted url) = true
is_accepted rejected = false
is_accepted oversized_dropped = false

abbrev pub start_cleaning : {F : Type 0} → Bool → CaptureCollector F → Cleaned F
start_cleaning flag c = record { urls = []; truncated = flag; collector = c }

module _ {F : Type 0} (lib : CaptureLibrary F) (is_ip : Bytes → Bool) ⦃tx : Text⦄ where
  -- the resources of the page: the script URLs, the iframe URLs and their flags
  abbrev pub clean_scripts : BoundedDomSnapshot → CaptureCollector F → Cleaned F
  clean_scripts s c =
      clean_resource_urls lib warning_script_limit s.script_urls
        (start_cleaning c.truncated.scripts c)

  abbrev pub clean_iframes : BoundedDomSnapshot → CaptureCollector F → Cleaned F
  clean_iframes s c =
      clean_resource_urls lib warning_iframe_limit s.iframe_urls
        (start_cleaning c.truncated.iframes c)

  -- result.DOM
  abbrev pub bounded_dom : Bytes → Bytes
  bounded_dom dom =
      if ltb max_dom_bytes (length dom)
      then truncate_utf8 dom max_dom_bytes
      else if lib.is_utf8 dom
      then dom
      else []

  -- result.DOMTruncated
  abbrev dom_is_truncated : BoundedDomSnapshot → Bool
  dom_is_truncated s =
      ltb max_dom_bytes (length s.dom)
      || (lib.is_utf8 s.dom && (s.dom_truncated || s.traversal_truncated))

  -- snapshotBounded: the result, and the collector that it leaves
  unfoldable pub snapshot_bounded :
      Bytes
      → BoundedDomSnapshot
      → List CaptureCookie
      → CaptureCollector F
      → CaptureResult × CaptureCollector F
  snapshot_bounded final_url s cookies c =
      let (final, c₁) = classify_url lib final_url c in
      let scripts = clean_scripts s c₁ in
      let iframes = clean_iframes s scripts.collector in
      let cut_scripts = s.script_truncated || s.traversal_truncated in
      let cut_iframes = s.iframe_truncated || s.traversal_truncated in
      let c₂ = warn_if cut_scripts warning_script_limit iframes.collector in
      let c₃ = warn_if cut_iframes warning_iframe_limit c₂ in
      let c₄ = warn_if s.url_truncated warning_url_limit c₃ in
      let c₅ = warn_if (dom_is_truncated s) warning_dom_limit c₄ in
      let sorted = sort_cookies (cookie_set lib is_ip cookies) in
      let cut_cookies = ltb max_capture_items (length sorted) in
      let c₆ = warn_if cut_cookies warning_cookie_limit c₅ in
      let flags = record (c.truncated) {
        scripts = scripts.truncated || cut_scripts;
        iframes = iframes.truncated || cut_iframes;
        cookies = c.truncated.cookies || cut_cookies;
      } in
      (
        record {
          final_url = accepted_url final;
          final_url_incomplete = not (is_accepted final);
          dom = bounded_dom s.dom;
          dom_truncated = dom_is_truncated s;
          requests = c.requests;
          responses = c.responses;
          transactions = sorted_transactions c.transactions;
          script_urls = scripts.urls;
          iframe_urls = iframes.urls;
          cookies = if cut_cookies then take max_capture_items sorted else sorted;
          warnings = c₆.warnings;
          requests_truncated = flags.requests;
          responses_truncated = flags.responses;
          script_urls_truncated = flags.scripts;
          iframe_urls_truncated = flags.iframes;
          cookies_truncated = flags.cookies;
        },
        record c₆ { truncated = flags },
      )
