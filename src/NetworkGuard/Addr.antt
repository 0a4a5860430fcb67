-- ===== src/NetworkGuard/Addr.antt =====
-- The part of net/netip that the guard uses: addresses, the zero one included, and prefixes.
use hemera.Base.{
  ℕ, ◌+◌, ◌-◌, ◌*◌, ◌/◌, ◌%◌, ◌^◌, Bool, true, false, ◌&&◌, not, ◌==◌, Bytes, bytes_eq, [],
  if◌then◌else◌,
}

-- netip.Addr: the 32 or 128 bits of an address as a number, and the zone of an IPv6 address
pub data Addr : Type 0 where
  invalid : Addr
  v4 : ℕ → Addr
  v6 : ℕ → Bytes → Addr

-- Addr.IsValid
abbrev pub is_valid : Addr → Bool
is_valid invalid = false
is_valid (v4 _) = true
is_valid (v6 _ _) = true

-- Addr.Zone
abbrev pub zone : Addr → Bytes
zone (v6 _ z) = z
zone invalid = []
zone (v4 _) = []

-- Addr.Unmap: an IPv4-mapped IPv6 address, ::ffff:0:0/96, as its IPv4 address, without the zone
abbrev pub unmap : Addr → Addr
unmap (v6 n z) = if n / 2 ^ 32 == 0xffff then v4 (n % 2 ^ 32) else v6 n z
unmap invalid = invalid
unmap (v4 n) = v4 n

-- Addr.IsGlobalUnicast: not unspecified, broadcast, loopback, multicast or link-local
unfoldable pub is_global_unicast : Addr → Bool
is_global_unicast invalid = false
is_global_unicast (v4 n) =
    not (n == 0)
    && not (n == 0xffff_ffff)
    && not (n / 2 ^ 24 == 127)
    && not (n / 2 ^ 28 == 14)
    && not (n / 2 ^ 16 == 0xa9fe)
is_global_unicast (v6 n z) =
    not (n == 0 && bytes_eq z [])
    && not (n == 1)
    && not (n / 2 ^ 120 == 0xff)
    && not (n / 2 ^ 118 == 0x3fa)

-- netip.Prefix, of an IPv4 or an IPv6 address
pub data Prefix : Type 0 where
  of_v4 : ℕ → ℕ → Prefix
  of_v6 : ℕ → ℕ → Prefix

-- the address a.b.c.d
abbrev pub address4 : ℕ → ℕ → ℕ → ℕ → ℕ
address4 a b c d = a * 2 ^ 24 + b * 2 ^ 16 + c * 2 ^ 8 + d

-- a.b.c.d/bits
abbrev pub prefix4 : ℕ → ℕ → ℕ → ℕ → ℕ → Prefix
prefix4 a b c d bits = of_v4 (address4 a b c d) bits

-- the address a:b:c:d:e:f:g:h
abbrev pub address6 : ℕ → ℕ → ℕ → ℕ → ℕ → ℕ → ℕ → ℕ → ℕ
address6 a b c d e f g h =
    a * 2 ^ 112 + b * 2 ^ 96 + c * 2 ^ 80 + d * 2 ^ 64 + e * 2 ^ 48 + f * 2 ^ 32 + g * 2 ^ 16 + h

-- a:b:c:d:e:f:g:h/bits
abbrev pub prefix6 : ℕ → ℕ → ℕ → ℕ → ℕ → ℕ → ℕ → ℕ → ℕ → Prefix
prefix6 a b c d e f g h bits = of_v6 (address6 a b c d e f g h) bits

-- Prefix.Contains: the same family, no zone, and the same leading bits
unfoldable pub prefix_contains : Prefix → Addr → Bool
prefix_contains (of_v4 base bits) (v4 n) = n / 2 ^ (32 - bits) == base / 2 ^ (32 - bits)
prefix_contains (of_v6 base bits) (v6 n z) =
    bytes_eq z [] && (n / 2 ^ (128 - bits) == base / 2 ^ (128 - bits))
prefix_contains _ _ = false
