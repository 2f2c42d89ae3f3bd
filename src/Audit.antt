-- ===== src/Audit.antt =====
-- The tamper-evident audit log: crates/runonmine-core/src/audit.rs, audit_mac.rs and
-- storage/audit_store.rs.
pub mod Event
pub mod Mac
pub mod Chain
pub mod Verification
pub mod Retention
pub mod Linking
pub mod Integrity
pub mod Growth
pub mod Preservation
