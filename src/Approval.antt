-- ===== src/Approval.antt =====
-- Local approvals and the grants that they leave: crates/runonmine-core/src/approval.rs, the
-- approval tables of storage.rs, and crates/runonmine-mcp/src/approval_flow.rs.
pub mod Principal
pub mod Tables
pub mod Store
pub mod Lifecycle
pub mod Finality
pub mod Upserts
pub mod Grants
pub mod Timeouts
pub mod Races
