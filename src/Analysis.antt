-- ===== src/Analysis.antt =====
-- internal/analysis: the capabilities of the production analyzers (capability.go), and the observation
-- that an analyzer returns (observation.go). Clone, which separates the buffers of two observations, is
-- the identity on values and has no definition here.
use hemera.Base.{
  ℕ, Bool, true, false, ◌&&◌, not, Bytes, bytes, bytes_eq, bytes_lt, Option, some, none,
  if◌then◌else◌, List, [], ◌∷◌, ◌++◌,
}
use hemera.Model.{SignalType, Signal, is_valid_type}
use hemera.Sorted.{sort_strings}

pub record Capability : Type 0 where
  pub source : Bytes
  pub signal_type : SignalType

abbrev pub source_http : Bytes
source_http = bytes "http_analyzer"

abbrev pub source_dns_tls : Bytes
source_dns_tls = bytes "dns_tls_analyzer"

abbrev pub source_browser : Bytes
source_browser = bytes "browser_analyzer"

abbrev produces : Bytes → List SignalType → List Capability → List Capability
produces s [] rest = rest
produces s (t ∷ ts) rest = record { source = s; signal_type = t } ∷ produces s ts rest

-- implementedCapabilities
abbrev pub implemented_capabilities_table : List Capability
implemented_capabilities_table =
    produces source_browser
      (bytes "cookie"
        ∷ bytes "form_submission"
        ∷ bytes "iframe_url"
        ∷ bytes "network_request"
        ∷ bytes "network_response"
        ∷ bytes "network_transaction"
        ∷ bytes "page_content"
        ∷ bytes "script_url"
        ∷ [])
      (produces source_dns_tls (bytes "dns_record" ∷ bytes "tls_property" ∷ []) (
        produces source_http
          (bytes "cookie"
            ∷ bytes "iframe_url"
            ∷ bytes "network_response"
            ∷ bytes "page_content"
            ∷ bytes "redirect"
            ∷ bytes "resource_host"
            ∷ bytes "response_header"
            ∷ bytes "script_url"
            ∷ [])
          []))

-- the order of sort.Slice in ImplementedCapabilities and in NewCapabilityRegistry
unfoldable pub capability_lt : Capability → Capability → Bool
capability_lt a b =
    if not (bytes_eq a.source b.source)
    then bytes_lt a.source b.source
    else bytes_lt a.signal_type b.signal_type

unfoldable pub insert_capability : Capability → List Capability → List Capability
insert_capability c [] = c ∷ []
insert_capability c (d ∷ ds) = if capability_lt d c then d ∷ insert_capability c ds else c ∷ d ∷ ds

unfoldable pub sort_capabilities : List Capability → List Capability
sort_capabilities [] = []
sort_capabilities (c ∷ cs) = insert_capability c (sort_capabilities cs)

-- ImplementedCapabilities
unfoldable pub implemented_capabilities : List Capability
unfolding sort_capabilities insert_capability capability_lt
implemented_capabilities = sort_capabilities implemented_capabilities_table

unfoldable pub types_of_source : Bytes → List Capability → List SignalType
types_of_source s [] = []
types_of_source s (c ∷ cs) =
    if bytes_eq c.source s then c.signal_type ∷ types_of_source s cs else types_of_source s cs

-- SupportedSignalTypes
unfoldable pub supported_signal_types : Bytes → List SignalType
unfolding types_of_source
supported_signal_types s = sort_strings (types_of_source s implemented_capabilities_table)

-- CapabilityStatus, a string in the source: the two declared values, and any other
pub data CapabilityStatus : Type 0 where
  complete incomplete : CapabilityStatus
  unsupported : Bytes → CapabilityStatus

pub record CapabilityCoverage : Type 0 where
  pub signal_type : SignalType
  pub status : CapabilityStatus

pub data CoverageError : Type 0 where
  invalid_coverage_type unsupported_status : CoverageError

abbrev status_error : CapabilityStatus → Option CoverageError
status_error complete = none
status_error incomplete = none
status_error (unsupported _) = some unsupported_status

-- CapabilityCoverage.Validate
unfoldable pub validate_coverage : CapabilityCoverage → Option CoverageError
validate_coverage c =
    if not (is_valid_type c.signal_type) then some invalid_coverage_type else status_error c.status

pub record TlsMetadata : Type 0 where
  pub version : ℕ
  pub negotiated_protocol : Bytes
  pub certificate_issuer : Bytes
  pub certificate_subject : Bytes
  pub dns_names : List Bytes

pub record HttpRedirect : Type 0 where
  pub from : Bytes
  pub to : Bytes
  pub status : ℕ

pub record HttpMetadata : Type 0 where
  pub requested_url : Bytes
  pub final_url : Bytes
  pub status_code : ℕ
  pub redirects : List HttpRedirect
  pub body_truncated : Bool
  pub tls : Option TlsMetadata

pub record NetworkNameCount : Type 0 where
  pub name : Bytes
  pub count : ℕ

pub record NetworkHostTraffic : Type 0 where
  pub host : Bytes
  pub requests : ℕ
  pub reused_requests : ℕ

pub record NetworkTimingStats : Type 0 where
  pub p50_ms : ℕ
  pub p95_ms : ℕ
  pub max_ms : ℕ

pub record NetworkTransaction : Type 0 where
  pub method : Bytes
  pub url : Bytes
  pub status : ℕ
  pub protocol : Bytes
  pub connection_reused : Bool
  pub wire_bytes : ℕ
  pub queue_ms : ℕ
  pub ttfb_ms : ℕ
  pub total_ms : ℕ

pub record NetworkMetadata : Type 0 where
  pub final_url : Bytes
  pub request_count : ℕ
  pub response_count : ℕ
  pub post_endpoints : List Bytes
  pub protocols : List NetworkNameCount
  pub status_classes : List NetworkNameCount
  pub hosts : List NetworkHostTraffic
  pub queue_timing : NetworkTimingStats
  pub ttfb_timing : NetworkTimingStats
  pub wire_bytes_total : ℕ
  pub transactions : List NetworkTransaction
  pub truncated : Bool

pub record Metadata : Type 0 where
  pub http : Option HttpMetadata
  pub network : Option NetworkMetadata

pub data MetadataKind : Type 0 where
  http_kind network_kind : MetadataKind

abbrev has_value : {A : Type 0} → Option A → Bool
has_value none = false
has_value (some _) = true

-- Metadata.Empty
unfoldable pub is_empty_metadata : Metadata → Bool
is_empty_metadata m = not (has_value m.http) && not (has_value m.network)

-- Metadata.Kinds
unfoldable pub kinds : Metadata → List MetadataKind
kinds m =
    (if has_value m.http then http_kind ∷ [] else [])
    ++ (if has_value m.network then network_kind ∷ [] else [])

pub record Observation (F : Type 0) : Type 0 where
  pub source : Bytes
  pub signals : List (Signal F)
  pub warnings : List Bytes
  pub capabilities : List CapabilityCoverage
  pub metadata : Metadata
