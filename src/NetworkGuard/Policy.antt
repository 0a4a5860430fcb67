-- ===== src/NetworkGuard/Policy.antt =====
-- Allowed of internal/networkguard/policy.go, and what it refuses.
use hemera.Base.{
  ℕ, ◌+◌, ◌*◌, ◌/◌, ◌%◌, ◌^◌, ◌≤◌, ◌<◌, Bool, true, false, ◌&&◌, ◌||◌, not, ◌≡◌, refl, ◌∙◌, ap,
  Bytes, bytes_eq, bytes_eq_iff, List, [], ◌∷◌, In, In-of_get_elem?, get_elem?, some, ◌≢◌, inl, inr,
  ◌⊎◌, if◌then◌else◌, arith,
}
use hemera.NetworkGuard.Addr.{
  Addr, v4, v6, is_valid, zone, unmap, is_global_unicast, Prefix, prefix4, address4,
  prefix_contains,
}
use hemera.NetworkGuard.Registry.{iana_special_purpose_prefixes, policy_overrides}

unfoldable pub any_contains : List Prefix → Addr → Bool
any_contains [] a = false
any_contains (p ∷ ps) a = prefix_contains p a || any_contains ps a

-- the tests of `Allowed` on an address that is not IPv4-mapped
unfoldable pub allowed_plain : Addr → Bool
allowed_plain a =
    not (any_contains iana_special_purpose_prefixes a)
    && not (any_contains policy_overrides a)
    && is_global_unicast a

-- Allowed
unfoldable pub allowed : Addr → Bool
unfolding allowed_plain
allowed a =
    if not (is_valid a) || not (bytes_eq (zone a) []) then false else allowed_plain (unmap a)

any_contains-In :
    (p : Prefix) (ps : List Prefix) (a : Addr)
    → In p ps
    → prefix_contains p a ≡ true
    → any_contains ps a ≡ true
unfolding any_contains
any_contains-In p [] a i h = absurd i
any_contains-In p (q ∷ ps) a (inl e) h =
    let h' : prefix_contains q a ≡ true = ap (λ x. prefix_contains x a) e ∙ h in rw h' refl
any_contains-In p (q ∷ ps) a (inr i) h = ground (arith, any_contains-In p ps a i h)

abbrev pub IsBetween : ℕ → ℕ → ℕ → Type 0
IsBetween n first last = (first ≤ n) × (n ≤ last)

-- The networks that a scan must never reach: private, loopback, link-local (with the cloud metadata
-- service), shared and multicast IPv4 ranges, by first and last address.
abbrev pub IsInternal : ℕ → Type 0
IsInternal n =
    IsBetween n (address4 10 0 0 0) (address4 10 255 255 255)
    ⊎ IsBetween n (address4 100 64 0 0) (address4 100 127 255 255)
    ⊎ IsBetween n (address4 127 0 0 0) (address4 127 255 255 255)
    ⊎ IsBetween n (address4 169 254 0 0) (address4 169 254 255 255)
    ⊎ IsBetween n (address4 172 16 0 0) (address4 172 31 255 255)
    ⊎ IsBetween n (address4 192 168 0 0) (address4 192 168 255 255)
    ⊎ IsBetween n (address4 224 0 0 0) (address4 239 255 255 255)
    ⊎ IsBetween n (address4 240 0 0 0) (address4 255 255 255 255)
    ⊎ IsBetween n (address4 0 0 0 0) (address4 0 255 255 255)

plain_refused :
    (p : Prefix) (a : Addr)
    → In p iana_special_purpose_prefixes ⊎ In p policy_overrides
    → prefix_contains p a ≡ true
    → allowed_plain a ≡ false
unfolding allowed_plain
plain_refused p a (inl i) h = rw (any_contains-In p iana_special_purpose_prefixes a i h) refl
plain_refused p a (inr i) h = ground (arith, any_contains-In p policy_overrides a i h)

-- in `p`, an address of IPv4 between two bounds is refused
between_refused :
    (p : Prefix) (n : ℕ)
    → In p iana_special_purpose_prefixes ⊎ In p policy_overrides
    → prefix_contains p (v4 n) ≡ true
    → allowed (v4 n) ≡ false
unfolding allowed bytes_eq
between_refused p n i h = plain_refused p (v4 n) i h

In-registry :
    (k : ℕ) {p : Prefix}
    → get_elem? iana_special_purpose_prefixes k ≡ some p
    → In p iana_special_purpose_prefixes ⊎ In p policy_overrides
In-registry k h = inl (In-of_get_elem? iana_special_purpose_prefixes k h)

-- No IPv4 address of a private, loopback, link-local, shared, multicast, reserved or this-network
-- range is allowed.
pub allowed-internal : (n : ℕ) → IsInternal n → allowed (v4 n) ≡ false
unfolding prefix_contains
allowed-internal n (inl h) =
    between_refused (prefix4 10 0 0 0 8) n (In-registry 2 refl) (ground (arith, h.0, h.1))
allowed-internal n (inr (inl h)) =
    between_refused (prefix4 100 64 0 0 10) n (In-registry 3 refl) (ground (arith, h.0, h.1))
allowed-internal n (inr (inr (inl h))) =
    between_refused (prefix4 127 0 0 0 8) n (In-registry 4 refl) (ground (arith, h.0, h.1))
allowed-internal n (inr (inr (inr (inl h)))) =
    between_refused (prefix4 169 254 0 0 16) n (In-registry 5 refl) (ground (arith, h.0, h.1))
allowed-internal n (inr (inr (inr (inr (inl h))))) =
    between_refused (prefix4 172 16 0 0 12) n (In-registry 6 refl) (ground (arith, h.0, h.1))
allowed-internal n (inr (inr (inr (inr (inr (inl h)))))) =
    between_refused (prefix4 192 168 0 0 16) n (In-registry 19 refl) (ground (arith, h.0, h.1))
allowed-internal n (inr (inr (inr (inr (inr (inr (inl h))))))) =
    between_refused (prefix4 224 0 0 0 4) n (inr (inl refl)) (ground (arith, h.0, h.1))
allowed-internal n (inr (inr (inr (inr (inr (inr (inr (inl h)))))))) =
    between_refused (prefix4 240 0 0 0 4) n (In-registry 24 refl) (ground (arith, h.0, h.1))
allowed-internal n (inr (inr (inr (inr (inr (inr (inr (inr h)))))))) =
    between_refused (prefix4 0 0 0 0 8) n (In-registry 0 refl) (ground (arith, h.0, h.1))

-- An IPv4-mapped IPv6 address without a zone is judged as its IPv4 address.
pub allowed-mapped : (n : ℕ) → n < 2 ^ 32 → allowed (v6 (0xffff * 2 ^ 32 + n) []) ≡ allowed (v4 n)
unfolding allowed bytes_eq
allowed-mapped n h =
    let top : (0xffff * 2 ^ 32 + n) / 2 ^ 32 ≡ 0xffff = omega arith in
    let rest : (0xffff * 2 ^ 32 + n) % 2 ^ 32 ≡ n = omega arith in rw (top, rest) refl

-- An address with a zone is never allowed.
pub allowed-zone : (n : ℕ) (z : Bytes) → z ≢ [] → allowed (v6 n z) ≡ false
unfolding allowed
allowed-zone n z h = ground (arith, bytes_eq_iff z [])
