-- ===== src/NetworkGuard.antt =====
-- internal/networkguard: which destinations may be contacted, and connections pinned to them.
pub mod Addr
pub mod Registry
pub mod Policy
pub mod Url
pub mod Dial
