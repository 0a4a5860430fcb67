-- ===== src/NetworkGuard/Registry.antt =====
-- internal/networkguard/iana_registry_generated.go and the overrides of policy.go: the prefixes that no
-- destination may lie in.
use hemera.Base.{List, [], ◌∷◌}
use hemera.NetworkGuard.Addr.{Prefix, prefix4, prefix6}

-- ianaSpecialPurposePrefixes, without the names and the notes on reachability, which no code reads
abbrev pub iana_special_purpose_prefixes : List Prefix
iana_special_purpose_prefixes =
    prefix4 0 0 0 0 8
    ∷ prefix4 0 0 0 0 32
    ∷ prefix4 10 0 0 0 8
    ∷ prefix4 100 64 0 0 10
    ∷ prefix4 127 0 0 0 8
    ∷ prefix4 169 254 0 0 16
    ∷ prefix4 172 16 0 0 12
    ∷ prefix4 192 0 0 0 24
    ∷ prefix4 192 0 0 0 29
    ∷ prefix4 192 0 0 8 32
    ∷ prefix4 192 0 0 9 32
    ∷ prefix4 192 0 0 10 32
    ∷ prefix4 192 0 0 170 32
    ∷ prefix4 192 0 0 171 32
    ∷ prefix4 192 0 2 0 24
    ∷ prefix4 192 31 196 0 24
    ∷ prefix4 192 52 193 0 24
    ∷ prefix4 192 88 99 0 24
    ∷ prefix4 192 88 99 2 32
    ∷ prefix4 192 168 0 0 16
    ∷ prefix4 192 175 48 0 24
    ∷ prefix4 198 18 0 0 15
    ∷ prefix4 198 51 100 0 24
    ∷ prefix4 203 0 113 0 24
    ∷ prefix4 240 0 0 0 4
    ∷ prefix4 255 255 255 255 32
    ∷ prefix6 0 0 0 0 0 0 0 0 128
    ∷ prefix6 0 0 0 0 0 0 0 0x1 128
    ∷ prefix6 0 0 0 0 0 0xffff 0 0 96
    ∷ prefix6 0x64 0xff9b 0 0 0 0 0 0 96
    ∷ prefix6 0x64 0xff9b 0x1 0 0 0 0 0 48
    ∷ prefix6 0x100 0 0 0 0 0 0 0 64
    ∷ prefix6 0x100 0 0 0x1 0 0 0 0 64
    ∷ prefix6 0x2001 0 0 0 0 0 0 0 23
    ∷ prefix6 0x2001 0 0 0 0 0 0 0 32
    ∷ prefix6 0x2001 0x1 0 0 0 0 0 0x1 128
    ∷ prefix6 0x2001 0x1 0 0 0 0 0 0x2 128
    ∷ prefix6 0x2001 0x1 0 0 0 0 0 0x3 128
    ∷ prefix6 0x2001 0x2 0 0 0 0 0 0 48
    ∷ prefix6 0x2001 0x3 0 0 0 0 0 0 32
    ∷ prefix6 0x2001 0x4 0x112 0 0 0 0 0 48
    ∷ prefix6 0x2001 0x10 0 0 0 0 0 0 28
    ∷ prefix6 0x2001 0x20 0 0 0 0 0 0 28
    ∷ prefix6 0x2001 0x30 0 0 0 0 0 0 28
    ∷ prefix6 0x2001 0xdb8 0 0 0 0 0 0 32
    ∷ prefix6 0x2002 0 0 0 0 0 0 0 16
    ∷ prefix6 0x2620 0x4f 0x8000 0 0 0 0 0 48
    ∷ prefix6 0x3fff 0 0 0 0 0 0 0 20
    ∷ prefix6 0x5f00 0 0 0 0 0 0 0 16
    ∷ prefix6 0xfc00 0 0 0 0 0 0 0 7
    ∷ prefix6 0xfe80 0 0 0 0 0 0 0 10
    ∷ []

-- policyOverrides
abbrev pub policy_overrides : List Prefix
policy_overrides =
    prefix4 224 0 0 0 4
    ∷ prefix6 0 0 0 0 0 0 0 0 96
    ∷ prefix6 0xfec0 0 0 0 0 0 0 0 10
    ∷ prefix6 0xff00 0 0 0 0 0 0 0 8
    ∷ []
