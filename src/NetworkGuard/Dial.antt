-- ===== src/NetworkGuard/Dial.antt =====
-- Guard.resolve, Guard.Validate and Guard.DialContext of internal/networkguard/networkguard.go.
pub mod Safe
use hemera.Base.{
  ℕ, zero, suc, ◌+◌, Bool, true, false, ◌&&◌, ◌||◌, not, ◌≡◌, ◌≢◌, refl, sym, ◌∙◌, ap, subst, Bytes,
  bytes_eq, Option, some, none, Result, ok, err, ◌>>=◌, >>=-eq-ok, ok_injective, if◌then◌else◌,
  List, [], ◌∷◌, ◌++◌, All, In, inl, inr, ◌⊎◌, arith, Bool-cases, Option-cases, Result-cases,
}
use hemera.NetworkGuard.Addr.{Addr, is_valid, zone, unmap}
use hemera.NetworkGuard.Policy.{allowed}

pub data GuardError : Type 0 where
  invalid_url forbidden_destination empty_resolution resolution_failed : GuardError

-- netip.ParseAddr and the resolver's LookupNetIP
pub record Resolver : Type 0 where
  pub parse_addr : Bytes → Option Addr
  pub lookup_ip : Bytes → Option (List Addr)

-- the loop of resolve over the addresses found
unfoldable pub normalize : List Addr → Result GuardError (List Addr)
normalize [] = ok []
normalize (a ∷ rest) =
    if not (is_valid (unmap a)) || not (bytes_eq (zone (unmap a)) []) || not (allowed (unmap a))
    then err forbidden_destination
    else (normalize rest) >>= λ normalized. ok (unmap a ∷ normalized)

module _ (resolver : Resolver) where
  open resolver use {parse_addr, lookup_ip}

  abbrev literal : Addr → Result GuardError (List Addr)
  literal a = if not (allowed (unmap a)) then err forbidden_destination else ok (unmap a ∷ [])

  abbrev looked_up : Option (List Addr) → Result GuardError (List Addr)
  looked_up none = err resolution_failed
  looked_up (some []) = err empty_resolution
  looked_up (some (a ∷ rest)) = normalize (a ∷ rest)

  -- Guard.resolve
  unfoldable pub resolve : Bytes → Result GuardError (List Addr)
  resolve host = elim (parse_addr host) [ some a ↦ literal a | none ↦ looked_up (lookup_ip host) ]

  -- Guard.Validate, on the hostname of the URL
  unfoldable pub validate : Bytes → Option GuardError
  validate hostname = elim (resolve hostname) [ ok _ ↦ none | err e ↦ some e ]

pub data DialError : Type 0 where
  cancelled : DialError
  refused : Addr → DialError

-- The world of one dial: whether the context has ended at the k-th time that it is asked, and the
-- connection that the dialer opens to an address, if any.
pub record Dialer (C : Type 0) : Type 0 where
  pub ended : ℕ → Bool
  pub connect : Addr → Option C

pub record Dialed (C : Type 0) : Type 0 where
  pub conn : Option C
  pub tried : List Addr
  pub errors : List DialError

module _ {C : Type 0} (dialer : Dialer C) where
  open dialer use {ended, connect}

  -- The loop of DialContext, from the k-th question to the context; `errors` is dialErrors.
  unfoldable pub dial_each : ℕ → List Addr → List DialError → List Addr → Dialed C
  dial_each k tried errors [] = record { conn = none; tried = tried; errors = errors }
  dial_each k tried errors (a ∷ rest) = elim (ended k) [
    | true ↦ record { conn = none; tried = tried; errors = errors ++ (cancelled ∷ []) }
    | false ↦ elim (connect a) [
      | some c ↦ record { conn = some c; tried = tried ++ (a ∷ []); errors = errors }
      | none ↦ elim (ended (k + 1)) [
        | true ↦ record {
          conn = none;
          tried = tried ++ (a ∷ []);
          errors = errors ++ (refused a ∷ cancelled ∷ []);
        }
        | false ↦ dial_each (k + 2) (tried ++ (a ∷ [])) (errors ++ (refused a ∷ [])) rest
      ]
    ]
  ]

-- Guard.DialContext on the split address: `split` is net.SplitHostPort, and the port, the same for
-- every address, is left out of what is dialed.
module _ {C : Type 0} (resolver : Resolver) (dialer : Dialer C) (split : Bytes → Option Bytes) where
  abbrev dial_host : Option Bytes → Result GuardError (Dialed C)
  dial_host none = err invalid_url
  dial_host (some host) =
      (resolve resolver host) >>= λ addresses. ok (dial_each dialer 0 [] [] addresses)

  unfoldable pub dial_context : Bytes → Result GuardError (Dialed C)
  dial_context address = dial_host (split address)
