-- ===== src/Rules.antt =====
-- internal/rules
pub mod Schema
pub mod Pattern
pub mod Cache
pub mod Validate
pub mod Match
pub mod Capabilities
pub mod Coverage
