-- ===== src/Browser/Capture/Snapshot/Cookies.antt =====
-- cleanCookies and cleanCookieDomain of internal/browser/capture.go. `is_ip` stands for net.ParseIP.
use hemera.Base.{
  ℕ, ltb, leb, ◌==◌, ◌-◌, Bool, true, false, ◌&&◌, ◌||◌, not, Bytes, bytes, bytes_eq, bytes_lt,
  has_suffix, some, none, if◌then◌else◌, List, [], ◌∷◌, length, get_elem?,
}
use hemera.Text.{Text}
use hemera.Browser.Capture.{CaptureLibrary, clean_metadata}

pub record CaptureCookie : Type 0 where
  pub name : Bytes
  pub domain : Bytes

-- strings.TrimPrefix(domain, ".")
abbrev trim_dot : Bytes → Bytes
trim_dot [] = []
trim_dot (b ∷ s) = if b == b'.' then s else b ∷ s

abbrev to_first : ℕ → List Bytes → List Bytes
to_first b [] = (b ∷ []) ∷ []
to_first b (label ∷ labels) = (b ∷ label) ∷ labels

-- strings.Split(host, ".")
unfoldable pub split_dots : Bytes → List Bytes
split_dots [] = [] ∷ []
split_dots (b ∷ s) =
    let labels = split_dots s in if b == b'.' then [] ∷ labels else to_first b labels

abbrev is_byte_at : Bytes → ℕ → ℕ → Bool
is_byte_at s i b = elim (get_elem? s i) [ none ↦ false | some c ↦ c == b ]

unfoldable pub all_label_bytes : Bytes → Bool
all_label_bytes [] = true
all_label_bytes (b ∷ s) =
    ((leb b'a' b && leb b b'z') || (leb b'0' b && leb b b'9') || (b == b'-')) && all_label_bytes s

-- The tests of one label. A code point above 127 has no byte that passes.
abbrev is_label : Bytes → Bool
is_label label =
    not (
      bytes_eq label []
      || ltb 63 (length label)
      || is_byte_at label 0 b'-'
      || is_byte_at label (length label - 1) b'-')
    && all_label_bytes label

unfoldable pub all_labels : List Bytes → Bool
all_labels [] = true
all_labels (label ∷ labels) = is_label label && all_labels labels

abbrev holds_cookie : CaptureCookie → List CaptureCookie → Bool
holds_cookie c [] = false
holds_cookie c (d ∷ ds) =
    (bytes_eq d.name c.name && bytes_eq d.domain c.domain) || holds_cookie c ds

unfoldable pub cookie_lt : CaptureCookie → CaptureCookie → Bool
cookie_lt c d =
    if not (bytes_eq c.name d.name) then bytes_lt c.name d.name else bytes_lt c.domain d.domain

unfoldable pub insert_cookie : CaptureCookie → List CaptureCookie → List CaptureCookie
insert_cookie c [] = c ∷ []
insert_cookie c (d ∷ ds) = if cookie_lt d c then d ∷ insert_cookie c ds else c ∷ d ∷ ds

-- sort.Slice in cleanCookies
unfoldable pub sort_cookies : List CaptureCookie → List CaptureCookie
sort_cookies [] = []
sort_cookies (c ∷ cs) = insert_cookie c (sort_cookies cs)

module _ {F : Type 0} (lib : CaptureLibrary F) (is_ip : Bytes → Bool) ⦃tx : Text⦄ where
  -- cleanCookieDomain
  unfoldable pub clean_cookie_domain : Bytes → Bytes
  clean_cookie_domain domain =
      let host = trim_dot domain in
      if bytes_eq (clean_metadata lib domain) [] || not (bytes_eq domain (tx.to_lower domain))
      then []
      else if bytes_eq host [] || ltb 253 (length host) || has_suffix host (bytes ".")
      then []
      else if is_ip host
      then domain
      else if all_labels (split_dots host)
      then domain
      else []

  abbrev clean_cookie : CaptureCookie → CaptureCookie
  clean_cookie c = record {
    name = clean_metadata lib c.name;
    domain = clean_cookie_domain c.domain;
  }

  -- the set of cleanCookies
  unfoldable pub cookie_set : List CaptureCookie → List CaptureCookie
  cookie_set [] = []
  cookie_set (c ∷ cs) =
      let d = clean_cookie c in
      let rest = cookie_set cs in
      if bytes_eq d.name [] || bytes_eq d.domain [] || holds_cookie d rest then rest else d ∷ rest
