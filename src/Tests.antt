-- ===== src/Tests.antt =====
-- The properties of the library at concrete inputs.
mod Network
mod Walks
mod Matching
mod Scores
mod Coverage
mod Scans
mod Captures
mod Headers
