-- ===== src/Model.antt =====
-- pkg/model/signal.go: the normalized signal and its validation. A signal type is a string, as in the
-- source, and is valid if the map validSignalTypes, here a list, has it.
pub mod Normalized
use hemera.Base.{
  refl, arith, ◌↔◌, ◌≡◌, Bool, true, false, ◌||◌, not, Option, some, none, List, [], ◌∷◌, Bytes,
  bytes, bytes_eq, has, if◌then◌else◌,
}
use hemera.Float.{Float64}
use hemera.Text.{Text}

abbrev pub SignalType : Type 0
SignalType = Bytes

-- the constants of the type SignalType
pub data SignalConstant : Type 0 where
  response_header cookie script_url network_request network_response : SignalConstant
  network_transaction form_submission dom_selector iframe_url js_global : SignalConstant
  dns_record tls_property redirect page_content resource_host : SignalConstant

abbrev pub type_of : SignalConstant → SignalType
type_of response_header = bytes "response_header"
type_of cookie = bytes "cookie"
type_of script_url = bytes "script_url"
type_of network_request = bytes "network_request"
type_of network_response = bytes "network_response"
type_of network_transaction = bytes "network_transaction"
type_of form_submission = bytes "form_submission"
type_of dom_selector = bytes "dom_selector"
type_of iframe_url = bytes "iframe_url"
type_of js_global = bytes "js_global"
type_of dns_record = bytes "dns_record"
type_of tls_property = bytes "tls_property"
type_of redirect = bytes "redirect"
type_of page_content = bytes "page_content"
type_of resource_host = bytes "resource_host"

unfoldable pub valid_signal_types : List SignalType
valid_signal_types =
    type_of response_header
    ∷ type_of cookie
    ∷ type_of script_url
    ∷ type_of network_request
    ∷ type_of network_response
    ∷ type_of network_transaction
    ∷ type_of form_submission
    ∷ type_of dom_selector
    ∷ type_of iframe_url
    ∷ type_of js_global
    ∷ type_of dns_record
    ∷ type_of tls_property
    ∷ type_of redirect
    ∷ type_of page_content
    ∷ type_of resource_host
    ∷ []

-- SignalType.Valid
unfoldable pub is_valid_type : SignalType → Bool
unfolding has valid_signal_types bytes_eq
is_valid_type t = has t valid_signal_types

pub record Signal (F : Type 0) : Type 0 where
  pub type : SignalType
  pub source : Bytes
  pub key : Bytes
  pub value : Bytes
  pub url : Bytes
  pub confidence : F

pub data SignalError : Type 0 where
  invalid_signal_type missing_signal_source missing_signal_key : SignalError
  invalid_signal_confidence : SignalError

-- strings.TrimSpace(s) == ""
abbrev pub is_blank : ⦃tx : Text⦄ → Bytes → Bool
is_blank ⦃tx⦄ s = bytes_eq (tx.trim_space s) []

tests_passed :
    (valid blank_source blank_key nan inf negative above : Bool)
    → (if not valid
        then some invalid_signal_type
        else if blank_source
        then some missing_signal_source
        else if blank_key
        then some missing_signal_key
        else if nan || inf || negative || above
        then some invalid_signal_confidence
        else none)
      ≡ none
    → (valid ≡ true)
      × (blank_source ≡ false)
      × (blank_key ≡ false)
      × (nan ≡ false)
      × (inf ≡ false)
      × (negative ≡ false)
      × (above ≡ false)
tests_passed valid blank_source blank_key nan inf negative above h = (
  ground arith,
  ground arith,
  ground arith,
  ground arith,
  ground arith,
  ground arith,
  ground arith,
)

module _ {F : Type 0} ⦃fl : Float64 F⦄ ⦃tx : Text⦄ where
  -- Signal.Validate: none is a nil error
  unfoldable pub validate_signal : Signal F → Option SignalError
  unfolding is_valid_type
  validate_signal s =
      if not (is_valid_type s.type)
      then some invalid_signal_type
      else if is_blank s.source
      then some missing_signal_source
      else if is_blank s.key
      then some missing_signal_key
      else if fl.is_nan s.confidence
          || fl.is_inf s.confidence
          || fl.lt s.confidence (fl.of_ℕ 0)
          || fl.lt (fl.of_ℕ 1) s.confidence
      then some invalid_signal_confidence
      else none

  -- the tests of Signal.Validate, each passed
  pub record IsValidSignal (s : Signal F) : Type 0 where
    pub type_valid : is_valid_type s.type ≡ true
    pub source_present : is_blank s.source ≡ false
    pub key_present : is_blank s.key ≡ false
    pub number : fl.is_nan s.confidence ≡ false
    pub finite : fl.is_inf s.confidence ≡ false
    pub nonnegative : fl.lt s.confidence (fl.of_ℕ 0) ≡ false
    pub at_most_one : fl.lt (fl.of_ℕ 1) s.confidence ≡ false

  pub validate_signal-IsValidSignal : (s : Signal F) → (validate_signal s ≡ none) ↔ IsValidSignal s
  unfolding validate_signal
  validate_signal-IsValidSignal s = (
    (λ h.
        let (t, b, k, n, i, z, o) =
          tests_passed (is_valid_type s.type) (is_blank s.source) (is_blank s.key)
            (fl.is_nan s.confidence) (fl.is_inf s.confidence) (fl.lt s.confidence (fl.of_ℕ 0))
            (fl.lt (fl.of_ℕ 1) s.confidence) h in
        record {
          type_valid = t;
          source_present = b;
          key_present = k;
          number = n;
          finite = i;
          nonnegative = z;
          at_most_one = o;
        }),
    (λ h.
        rw
          (
            h.type_valid, h.source_present, h.key_present, h.number, h.finite, h.nonnegative,
            h.at_most_one,
          )
          refl),
  )
