-- ===== src/Tests/Headers.antt =====
-- A response header of a proxied page, whose names are canonical as they stand.
use hemera.Base.{
  delete_key, ◌≡◌, ◌≤◌, refl, Bytes, bytes, bytes_eq, has, lookup, none, List, [], ◌∷◌, ◌++◌, map,
  if◌then◌else◌,
}
use hemera.Tests.Scores.{ascii_text}
use hemera.Browser.Headers.{
  Header, connection_options, hop_by_hop, remove_hop_by_hop_headers, header_size, values,
  copy_header, delete_each, split,
}
use hemera.Browser.Headers.Exact.{remove_hop_by_hop_headers-exact, copy_header_lem}

abbrev canonical : Bytes → Bytes
canonical name = name

abbrev cookies : List Bytes
cookies = bytes "a=1" ∷ bytes "b=2" ∷ []

abbrev header : Header
header =
    (bytes "Connection", bytes "close, X-Hop" ∷ [])
    ∷ (bytes "Set-Cookie", cookies)
    ∷ (bytes "X-Hop", bytes "1" ∷ [])
    ∷ (bytes "Upgrade", bytes "h2c" ∷ [])
    ∷ []

filtered : remove_hop_by_hop_headers canonical header ≡ (bytes "Set-Cookie", cookies) ∷ []
unfolding remove_hop_by_hop_headers delete_each delete_key split lookup bytes_eq
filtered = refl

remove_hop_by_hop_headers-exact_example :
    (lookup (bytes "X-Hop") (remove_hop_by_hop_headers canonical header) ≡ (
      if has (bytes "X-Hop") (map canonical (connection_options canonical header ++ hop_by_hop))
      then none
      else lookup (bytes "X-Hop") header))
    × (header_size (remove_hop_by_hop_headers canonical header) ≤ header_size header)
remove_hop_by_hop_headers-exact_example =
    remove_hop_by_hop_headers-exact canonical header (bytes "X-Hop")

copy_header_lem_example :
    values (bytes "Set-Cookie") (copy_header canonical header ((bytes "Set-Cookie", cookies) ∷ []))
    ≡ (values (bytes "Set-Cookie") header
        ++ values (bytes "Set-Cookie") ((bytes "Set-Cookie", cookies) ∷ []))
copy_header_lem_example =
    copy_header_lem canonical header ((bytes "Set-Cookie", cookies) ∷ []) (bytes "Set-Cookie")
      (refl, tt) ((λ i. i), tt)
