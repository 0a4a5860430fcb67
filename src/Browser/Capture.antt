-- ===== src/Browser/Capture.antt =====
-- captureCollector of internal/browser/capture.go. Every method holds the mutex throughout, so a method
-- is a function on the state. The functions of net/url and unicode/utf8 are parameters.
pub mod Items
pub mod Snapshot
pub mod Short
pub mod Bounds
pub mod Oversized
pub mod Unchanged
pub mod Complete
pub mod Histories
use hemera.Base.{
  ℕ, zero, suc, ◌+◌, ltb, leb, ◌==◌, Bool, true, false, ◌&&◌, ◌||◌, not, Bytes, bytes, bytes_eq,
  has, Option, some, none, if◌then◌else◌, List, [], ◌∷◌, ◌++◌, length, get_elem?, set, Table,
  lookup, put,
}
use hemera.Float.{Float64}
use hemera.Text.{Text}

abbrev pub max_capture_items : ℕ
max_capture_items = 4096

abbrev pub max_metadata_bytes : ℕ
max_metadata_bytes = 8192

abbrev pub max_browser_url_bytes : ℕ
max_browser_url_bytes = 8192

abbrev pub max_timing_ms : ℕ
max_timing_ms = 60000

abbrev pub warning_request_limit : Bytes
warning_request_limit = bytes "browser requests reached the capture limit"

abbrev pub warning_response_limit : Bytes
warning_response_limit = bytes "browser responses reached the capture limit"

abbrev pub warning_url_limit : Bytes
warning_url_limit = bytes "a browser URL exceeded the capture limit and was omitted"

abbrev pub warning_transaction_limit : Bytes
warning_transaction_limit = bytes "browser network transactions reached the capture limit"

-- The fields of url.URL that the collector reads or changes; `rest` stands for the others.
pub record WebUrl : Type 0 where
  pub scheme : Bytes
  pub user : Bytes
  pub host : Bytes
  pub raw_query : Bytes
  pub force_query : Bool
  pub fragment : Bytes
  pub raw_fragment : Bytes
  pub rest : Bytes

-- url.Parse, URL.String, utf8.ValidString, and math.Round with the conversion to int64
pub record CaptureLibrary (F : Type 0) : Type 0 where
  pub parse : Bytes → Option WebUrl
  pub to_string : WebUrl → Bytes
  pub is_utf8 : Bytes → Bool
  pub round : F → F
  pub to_int : F → ℕ

pub record CaptureTiming : Type 0 where
  pub queue_ms : ℕ
  pub dns_ms : ℕ
  pub connect_ms : ℕ
  pub tls_ms : ℕ
  pub ttfb_ms : ℕ
  pub total_ms : ℕ

pub record CaptureTransaction : Type 0 where
  pub method : Bytes
  pub url : Bytes
  pub status : ℕ
  pub mime_type : Bytes
  pub resource_type : Bytes
  pub protocol : Bytes
  pub connection_reused : Bool
  pub wire_bytes : ℕ
  pub timing : CaptureTiming

pub record ResponseObservation (F : Type 0) : Type 0 where
  pub raw_url : Bytes
  pub status : ℕ
  pub mime_type : Bytes
  pub resource_type : Bytes
  pub protocol : Bytes
  pub connection_reused : Bool
  pub request_time : F
  pub timing : CaptureTiming

pub record CaptureRequest : Type 0 where
  pub method : Bytes
  pub url : Bytes
  pub resource_type : Bytes

pub record CaptureResponse : Type 0 where
  pub url : Bytes
  pub status : ℕ
  pub mime_type : Bytes
  pub resource_type : Bytes

pub record PendingTransaction (F : Type 0) : Type 0 where
  pub index : ℕ
  pub start_timestamp : F

pub record ChannelTruncation : Type 0 where
  pub requests : Bool
  pub responses : Bool
  pub scripts : Bool
  pub iframes : Bool
  pub cookies : Bool

-- captureCollector without its callback
pub record CaptureCollector (F : Type 0) : Type 0 where
  pub requests : List CaptureRequest
  pub responses : List CaptureResponse
  pub transactions : List CaptureTransaction
  pub pending : Table (PendingTransaction F)
  pub truncated : ChannelTruncation
  pub warnings : List Bytes
  pub warned : List Bytes

-- newCaptureCollector
abbrev pub new_collector : {F : Type 0} → CaptureCollector F
new_collector = record {
  requests = [];
  responses = [];
  transactions = [];
  pending = [];
  truncated = record {
    requests = false;
    responses = false;
    scripts = false;
    iframes = false;
    cookies = false;
  };
  warnings = [];
  warned = [];
}

-- hasUnsafeText: the code points in question are single bytes.
unfoldable pub has_unsafe_text : Bytes → Bool
has_unsafe_text [] = false
has_unsafe_text (b ∷ s) = ltb b 32 || (b == 127) || has_unsafe_text s

-- warn
unfoldable pub warn : {F : Type 0} → Bytes → CaptureCollector F → CaptureCollector F
warn w c =
    if has w c.warned
    then c
    else record c { warned = w ∷ c.warned; warnings = c.warnings ++ (w ∷ []) }

-- the two results of classifyURL
pub data UrlClass : Type 0 where
  accepted : Bytes → UrlClass
  rejected oversized_dropped : UrlClass

abbrev pub is_oversized : UrlClass → Bool
is_oversized (accepted _) = false
is_oversized rejected = false
is_oversized oversized_dropped = true

module _ {F : Type 0} (lib : CaptureLibrary F) where
  -- cleanMetadata
  unfoldable pub clean_metadata : Bytes → Bytes
  clean_metadata value =
      if bytes_eq value []
        || ltb max_metadata_bytes (length value)
        || not (lib.is_utf8 value)
        || has_unsafe_text value
      then []
      else value

  -- the changes of classifyURL to a parsed URL, of which the scheme is in lower case
  abbrev pub strip : WebUrl → Bytes → WebUrl
  strip u scheme =
      let queried = not (bytes_eq u.raw_query []) || u.force_query in
      record u {
        scheme = scheme;
        user = [];
        fragment = [];
        raw_fragment = [];
        raw_query = if queried then bytes "redacted" else u.raw_query;
        force_query = if queried then false else u.force_query;
      }

  abbrev pub class_of_parsed : ⦃tx : Text⦄ → Option WebUrl → UrlClass
  class_of_parsed none = rejected
  class_of_parsed ⦃tx⦄ (some u) =
      let scheme = tx.to_lower u.scheme in
      let cleaned = lib.to_string (strip u scheme) in
      if bytes_eq u.host []
      then rejected
      else if not (bytes_eq scheme (bytes "http")) && not (bytes_eq scheme (bytes "https"))
      then rejected
      else if ltb max_browser_url_bytes (length cleaned)
      then oversized_dropped
      else accepted cleaned

  unfoldable pub url_class : ⦃tx : Text⦄ → Bytes → UrlClass
  url_class raw =
      if ltb max_browser_url_bytes (length raw)
      then oversized_dropped
      else if bytes_eq raw [] || not (lib.is_utf8 raw) || has_unsafe_text raw
      then rejected
      else class_of_parsed (lib.parse raw)

  -- classifyURL: it warns exactly where it drops a URL for its size
  unfoldable pub classify_url :
      ⦃tx : Text⦄ → Bytes → CaptureCollector F → UrlClass × CaptureCollector F
  classify_url raw c =
      let class = url_class raw in
      (class, if is_oversized class then warn warning_url_limit c else c)

  -- boundedDurationMs
  unfoldable pub bounded_duration_ms : ⦃fl : Float64 F⦄ → F → ℕ
  bounded_duration_ms ⦃fl⦄ seconds =
      let milliseconds = lib.round (fl.mul seconds (fl.of_ℕ 1000)) in
      if fl.is_nan seconds || fl.is_inf seconds || fl.le seconds (fl.of_ℕ 0)
      then 0
      else if fl.lt (fl.of_ℕ max_timing_ms) milliseconds
      then max_timing_ms
      else lib.to_int milliseconds
