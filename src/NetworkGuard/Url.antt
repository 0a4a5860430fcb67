-- ===== src/NetworkGuard/Url.antt =====
-- ParseURL and portForURL of internal/networkguard/networkguard.go. url.Parse and
-- url.ParseRequestURI are given; the model checks what they return as the source does.
use hemera.Base.{
  ℕ, ◌+◌, ◌-◌, ◌*◌, ◌≤◌, Bool, false, ◌&&◌, ◌||◌, not, ◌≡◌, ◌≢◌, sym, ap, ◌∙◌, Bytes, bytes,
  bytes_eq, bytes_eq_iff, contains, has_suffix, ltb, leb, ◌==◌, Option, some, none, Result, ok, err,
  ◌>>=◌, Result-cases, if◌then◌else◌, [], ◌∷◌, ◌⊎◌, inl, inr, arith, Bool-cases, Option-cases,
  subst,
}
use hemera.Text.{Text}

-- what the source reads of a url.URL
pub record Url : Type 0 where
  pub scheme : Bytes
  pub host : Bytes
  pub hostname : Bytes
  pub port : Bytes
  pub opaque : Bytes
  pub has_user : Bool
  pub request_uri : Bytes

pub data UrlError : Type 0 where
  surrounded ambiguous unparsed bad_scheme no_host credentials ipv6_zone empty_port : UrlError
  bad_request_target bad_port : UrlError

-- The part of net/url and unicode that ParseURL calls.
pub record UrlLibrary : Type 0 where
  -- whether a text has a control character or a space of Unicode
  pub has_control_or_space : Bytes → Bool
  pub parse : Bytes → Option Url
  pub parse_request_uri : Bytes → Bool

-- strconv.Atoi on a text without a sign: its value, if it is all digits and not empty. Values above
-- the range of int, which Atoi refuses, are refused by the caller too.
abbrev is_digit : ℕ → Bool
is_digit c = leb b'0' c && leb c b'9'

unfoldable pub digits_from : ℕ → Bytes → Option ℕ
digits_from n [] = some n
digits_from n (c ∷ s) =
    let rest = digits_from (n * 10 + (c - b'0')) s in if is_digit c then rest else none

unfoldable pub unsigned : Bytes → Option ℕ
unfolding digits_from
unsigned [] = none
unsigned (d ∷ t) = digits_from 0 (d ∷ t)

-- a leading `+` is accepted, and a leading `-` gives no positive number
unfoldable pub atoi : Bytes → Option ℕ
unfolding unsigned
atoi [] = none
atoi (c ∷ s) = if c == b'+' then unsigned s else unsigned (c ∷ s)

abbrev valid_port : Option ℕ → Bool
valid_port none = false
valid_port (some n) = not (ltb n 1) && not (ltb 65535 n)

-- portForURL
unfoldable pub port_for_url : Url → Result UrlError Bytes
unfolding atoi
port_for_url u =
    if bytes_eq u.port []
    then if bytes_eq u.scheme (bytes "https") then ok (bytes "443") else ok (bytes "80")
    else if valid_port (atoi u.port)
    then ok u.port
    else err bad_port

abbrev contains_backslash : Bytes → Bool
contains_backslash s = contains s (bytes "\\")

module _ ⦃tx : Text⦄ (lib : UrlLibrary) where
  open lib use {has_control_or_space, parse, parse_request_uri}

  -- the checks of ParseURL on a parsed URL whose scheme is in lower case
  unfoldable pub check_url : Url → Result UrlError Url
  check_url u =
      if not (bytes_eq u.scheme (bytes "http")) && not (bytes_eq u.scheme (bytes "https"))
      then err bad_scheme
      else if bytes_eq u.host [] || bytes_eq u.hostname [] || not (bytes_eq u.opaque [])
      then err no_host
      else if u.has_user
      then err credentials
      else if contains u.hostname (bytes "%")
      then err ipv6_zone
      else if has_suffix u.host (bytes ":")
      then err empty_port
      else if not (parse_request_uri u.request_uri)
      then err bad_request_target
      else (port_for_url u) >>= λ _. ok u

  abbrev lower_scheme : Url → Url
  lower_scheme u = record u { scheme = tx.to_lower u.scheme }

  abbrev checked : Option Url → Result UrlError Url
  checked none = err unparsed
  checked (some u) = check_url (lower_scheme u)

  -- ParseURL
  unfoldable pub parse_url : Bytes → Result UrlError Url
  parse_url raw =
      if bytes_eq raw [] || not (bytes_eq (tx.trim_space raw) raw)
      then err surrounded
      else if has_control_or_space raw || contains_backslash raw
      then err ambiguous
      else checked (parse raw)

  -- A URL that ParseURL accepts.
  pub record IsTarget (u : Url) : Type 0 where
    pub web : (u.scheme ≡ bytes "http") ⊎ (u.scheme ≡ bytes "https")
    pub host_present : u.hostname ≢ []
    pub hierarchical : u.opaque ≡ []
    pub no_credentials : u.has_user ≡ false
    pub no_zone : contains u.hostname (bytes "%") ≡ false
    pub port_ok : (p : Bytes) × (port_for_url u ≡ ok p)

  check_url-IsTarget : (u v : Url) → check_url u ≡ ok v → (u ≡ v) × IsTarget u
  unfolding check_url
  check_url-IsTarget u v h = elim (Result-cases (port_for_url u)) [
    | inr (x, e) ↦ absurd (ground (arith, e))
    | inl (p, e) ↦ (
      ground (arith, e),
      record {
        web =
            ground
              (arith, bytes_eq_iff u.scheme (bytes "http"), bytes_eq_iff u.scheme (bytes "https"));
        host_present = ground (arith, bytes_eq_iff u.hostname []);
        hierarchical = ground (arith, bytes_eq_iff u.opaque []);
        no_credentials = ground arith;
        no_zone = ground arith;
        port_ok = (p, e);
      },
    )
  ]

  -- What ParseURL accepts is an absolute http or https URL with a host, without credentials and
  -- without an IPv6 zone, whose port can be told.
  pub parse_url-IsTarget : (raw : Bytes) (u : Url) → parse_url raw ≡ ok u → IsTarget u
  unfolding parse_url
  parse_url-IsTarget raw u h = elim (Option-cases (parse raw)) [
    | inl e ↦ absurd (ground (arith, e))
    | inr (w, e) ↦
        let accepted : check_url (lower_scheme w) ≡ ok u = ground (arith, e) in
        let (same, target) = check_url-IsTarget (lower_scheme w) u accepted in
        subst IsTarget same target
  ]

-- The port of an accepted URL is its own port, a number from 1 to 65535, or, if it has none, 443
-- for https and 80 otherwise.
pub port_for_url_lem :
    (u : Url) (p : Bytes)
    → port_for_url u ≡ ok p
    → ((u.port ≡ []) × (u.scheme ≡ bytes "https") × (p ≡ bytes "443"))
      ⊎ ((u.port ≡ []) × (u.scheme ≢ bytes "https") × (p ≡ bytes "80"))
      ⊎ ((n : ℕ) × (p ≡ u.port) × (atoi p ≡ some n) × (1 ≤ n) × (n ≤ 65535))
unfolding port_for_url
port_for_url_lem u p h = elim (Bool-cases (bytes_eq u.port [])) [
  | inl e ↦ elim (Bool-cases (bytes_eq u.scheme (bytes "https"))) [
    | inl f ↦
        inl
          ((bytes_eq_iff u.port []).0 e, (bytes_eq_iff u.scheme (bytes "https")).0 f, ground arith)
    | inr f ↦ inr (
        inl (
          (bytes_eq_iff u.port []).0 e,
          (λ g. cc ((bytes_eq_iff u.scheme (bytes "https")).1 g)),
          ground arith,
        ))
  ]
  | inr e ↦ elim (Option-cases (atoi u.port)) [
    | inl f ↦ absurd (ground (arith, f))
    | inr (n, f) ↦
        let same : u.port ≡ p = ground (arith, f) in
        inr (inr (n, sym same, ap atoi (sym same) ∙ f, ground (arith, f), ground (arith, f)))
  ]
]
