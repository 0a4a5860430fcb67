-- ===== src/Browser/Headers.antt =====
-- The header filters of internal/browser/proxy.go. A http.Header is a map from canonical names to values;
-- its Get and Del canonicalize the name with CanonicalHeaderKey of net/http, here the parameter
-- `canonical`.
pub mod Exact
use hemera.Base.{
  ℕ, ◌+◌, ◌==◌, Bytes, bytes, if◌then◌else◌, List, [], ◌∷◌, ◌++◌, map, length, Table, lookup, put,
  delete_key, or_zero,
}
use hemera.Text.{Text}

abbrev pub Header : Type 0
Header = Table (List Bytes)

abbrev prepend : ℕ → List Bytes → List Bytes
prepend c [] = (c ∷ []) ∷ []
prepend c (part ∷ parts) = (c ∷ part) ∷ parts

-- strings.Split with a separator of one byte
unfoldable pub split : ℕ → Bytes → List Bytes
split sep [] = [] ∷ []
split sep (c ∷ s) = if c == sep then [] ∷ split sep s else prepend c (split sep s)

abbrev pub first_value : List Bytes → Bytes
first_value [] = []
first_value (v ∷ vs) = v

unfoldable pub values_size : ℕ → List Bytes → ℕ
values_size name [] = 0
values_size name (v ∷ vs) = name + length v + 4 + values_size name vs

-- headerSize
unfoldable pub header_size : Header → ℕ
header_size [] = 0
header_size ((name, values) ∷ h) = values_size (length name) values + header_size h

abbrev pub hop_by_hop : List Bytes
hop_by_hop =
    bytes "Connection"
    ∷ bytes "Proxy-Connection"
    ∷ bytes "Keep-Alive"
    ∷ bytes "Proxy-Authenticate"
    ∷ bytes "Proxy-Authorization"
    ∷ bytes "Te"
    ∷ bytes "Trailer"
    ∷ bytes "Transfer-Encoding"
    ∷ bytes "Upgrade"
    ∷ []

module _ (canonical : Bytes → Bytes) ⦃tx : Text⦄ where
  -- Header.Get
  abbrev pub header_get : Bytes → Header → Bytes
  header_get name h = first_value (or_zero [] (lookup (canonical name) h))

  -- a loop that calls Header.Del
  unfoldable pub delete_each : List Bytes → Header → Header
  delete_each [] h = h
  delete_each (name ∷ names) h = delete_each names (delete_key (canonical name) h)

  abbrev pub connection_options : Header → List Bytes
  connection_options h = map tx.trim_space (split b',' (header_get (bytes "Connection") h))

  -- removeHopByHopHeaders
  unfoldable pub remove_hop_by_hop_headers : Header → Header
  remove_hop_by_hop_headers h = delete_each hop_by_hop (delete_each (connection_options h) h)

abbrev pub values : Bytes → Header → List Bytes
values k h = or_zero [] (lookup k h)

module _ (canonical : Bytes → Bytes) where
  -- Header.Add
  unfoldable pub header_add : Bytes → Bytes → Header → Header
  header_add name v h = put (canonical name) (values (canonical name) h ++ (v ∷ [])) h

  unfoldable pub add_each : Bytes → List Bytes → Header → Header
  add_each name [] h = h
  add_each name (v ∷ vs) h = add_each name vs (header_add name v h)

  -- copyHeader, for one order of the map that it reads
  unfoldable pub copy_header : Header → Header → Header
  copy_header destination [] = destination
  copy_header destination ((name, vs) ∷ source) = copy_header (add_each name vs destination) source
