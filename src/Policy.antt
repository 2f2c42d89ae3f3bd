-- ===== src/Policy.antt =====
-- The policy engine: crates/runonmine-core/src/policy.rs.
pub mod Model
pub mod Matching
pub mod Engine
pub mod Selection
pub mod Tightening
pub mod Commands
