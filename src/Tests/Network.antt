-- ===== src/Tests/Network.antt =====
-- A guard with a resolver that finds two public addresses, a navigation with small limits, and two
-- URLs.
use hemera.Browser.Budget.Copy.{Round, more, copy_with_budget, copy_with_budget-charged}
use hemera.Base.{
  ℕ, ◌+◌, ◌*◌, ◌^◌, ◌≡◌, ◌≢◌, refl, true, false, Bytes, bytes, bytes_eq, Option, some, none, ok,
  if◌then◌else◌, ◌==◌, List, [], ◌∷◌, ◌++◌, inl, inr, arith, ◌⊎◌, ◌≤◌, has_prefix, has_suffix,
  contains,
}
use hemera.Text.{ascii}
use hemera.NetworkGuard.Addr.{Addr, v4, v6, address4, is_global_unicast, prefix_contains}
use hemera.NetworkGuard.Policy.{
  allowed, allowed_plain, any_contains, allowed-internal, allowed-mapped,
}
use hemera.NetworkGuard.Url.{
  Url, UrlLibrary, IsTarget, parse_url, check_url, port_for_url, atoi, unsigned, digits_from,
  parse_url-IsTarget, port_for_url_lem,
}
use hemera.NetworkGuard.Dial.{
  Resolver, Dialer, Dialed, DialError, normalize, resolve, dial_each, dial_context,
}
use hemera.NetworkGuard.Dial.Safe.{
  IsPinned, dial_context-IsPinned, first_connection, dial_context-first,
}
use hemera.Browser.Budget.{
  Limits, Call, new_budget, step, failure, authorize, consume, fail, fail_policy, is_policy_error,
  stop, authorizes, consumes, fails, transfer_limit, stops,
}
use hemera.Browser.Budget.Bounds.{run, IsWithin, SameCounts, run-IsWithin, run-refuses}

abbrev silent : Addr
silent = v4 (address4 8 8 8 8)

abbrev answering : Addr
answering = v4 (address4 93 184 216 34)

abbrev resolver : Resolver
resolver = record { parse_addr = λ _. none; lookup_ip = λ _. some (silent ∷ answering ∷ []) }

abbrev answer : Addr → Option ℕ
answer (v4 n) = if n == address4 93 184 216 34 then some 7 else none
answer _ = none

abbrev dialer : Dialer ℕ
dialer = record { ended = λ _. false; connect = answer }

abbrev dialed : Dialed ℕ
dialed = record {
  conn = some 7;
  tried = silent ∷ answering ∷ [];
  errors = DialError.refused silent ∷ [];
}

resolved : resolve resolver [] ≡ ok (silent ∷ answering ∷ [])
unfolding resolve normalize allowed allowed_plain any_contains prefix_contains is_global_unicast
    bytes_eq
resolved = refl

dialed_lem : dial_context resolver dialer (λ h. some h) [] ≡ ok dialed
unfolding dial_context dial_each
dialed_lem = rw resolved refl

dial_context-IsPinned_example : IsPinned dialer (λ a. allowed a ≡ true) dialed
dial_context-IsPinned_example =
    dial_context-IsPinned resolver dialer (λ h. some h) [] dialed dialed_lem

dial_context-first_example :
    (d : Dialed ℕ) × (dial_context resolver dialer (λ h. some h) [] ≡ ok d)
    × (d.conn ≡ first_connection answer (silent ∷ answering ∷ []))
dial_context-first_example =
    dial_context-first resolver dialer (λ h. some h) [] [] (silent ∷ answering ∷ []) (λ _. refl)
      refl resolved

-- 169.254.169.254, the metadata service
allowed-internal_example : allowed (v4 (address4 169 254 169 254)) ≡ false
allowed-internal_example =
    allowed-internal (address4 169 254 169 254) (inr (inr (inr (inl (omega arith, omega arith)))))

allowed-mapped_example :
    allowed (v6 (0xffff * 2 ^ 32 + address4 127 0 0 1) []) ≡ allowed (v4 (address4 127 0 0 1))
allowed-mapped_example = allowed-mapped (address4 127 0 0 1) (omega arith)

abbrev site : Url
site = record {
  scheme = bytes "https";
  host = bytes "a.io:8443";
  hostname = bytes "a.io";
  port = bytes "8443";
  opaque = [];
  has_user = false;
  request_uri = bytes "/";
}

abbrev url_library : UrlLibrary
url_library = record {
  has_control_or_space = λ _. false;
  parse = λ _. some site;
  parse_request_uri = λ s. has_prefix s (bytes "/");
}

port_of_site : port_for_url site ≡ ok (bytes "8443")
unfolding port_for_url atoi unsigned digits_from bytes_eq
port_of_site = refl

abbrev site_text : Bytes
site_text = bytes "https://a.io:8443/"

parsed : parse_url ⦃tx = ascii⦄ url_library site_text ≡ ok site
unfolding parse_url check_url bytes_eq contains has_prefix has_suffix port_for_url atoi unsigned
    digits_from
parsed = refl

parse_url-IsTarget_example : IsTarget ⦃tx = ascii⦄ url_library site
parse_url-IsTarget_example = parse_url-IsTarget ⦃tx = ascii⦄ url_library site_text site parsed

port_for_url_lem_example :
    ((site.port ≡ []) × (site.scheme ≡ bytes "https") × (bytes "8443" ≡ bytes "443"))
    ⊎ ((site.port ≡ []) × (site.scheme ≢ bytes "https") × (bytes "8443" ≡ bytes "80"))
    ⊎ ((n : ℕ) × (bytes "8443" ≡ site.port)
        × (atoi (bytes "8443") ≡ some n)
        × (1 ≤ n)
        × (n ≤ 65535))
port_for_url_lem_example = port_for_url_lem site (bytes "8443") port_of_site

abbrev small : Limits
small = record { max_requests = 2; max_redirects = 1; max_transfer_bytes = 100 }

abbrev overrun : List Call
overrun = authorizes none false ∷ consumes 60 ∷ consumes 50 ∷ fails (some transfer_limit) ∷ []

abbrev late : List Call
late = authorizes none true ∷ stops ∷ []

run-IsWithin_example :
    ((run (new_budget small) overrun).config ≡ small) × IsWithin (run (new_budget small) overrun)
run-IsWithin_example = run-IsWithin small overrun

overrun_lem : (run (new_budget small) overrun).policy_err ≡ some transfer_limit
unfolding run step new_budget authorize consume fail fail_policy is_policy_error stop
overrun_lem = refl

run-refuses_example :
    ((run (new_budget small) (overrun ++ late)).done ≡ true)
    × (failure (run (new_budget small) (overrun ++ late)) ≡ some transfer_limit)
    × SameCounts (run (new_budget small) (overrun ++ late)) (run (new_budget small) overrun)
    × ((step (consumes 1) (run (new_budget small) (overrun ++ late))).0 ≡ some transfer_limit)
run-refuses_example = run-refuses small overrun late transfer_limit (consumes 1) overrun_lem refl

abbrev round : Round
round = record { count = 60; read = more; write = record { taken = 60; error = none } }

copy_with_budget-charged_example :
    (new_budget small).transfer_bytes
      + (copy_with_budget (round ∷ round ∷ []) (new_budget small)).written
    ≤ (copy_with_budget (round ∷ round ∷ []) (new_budget small)).budget.transfer_bytes
copy_with_budget-charged_example =
    copy_with_budget-charged (round ∷ round ∷ []) (new_budget small)
      (omega arith, (omega arith, tt))
