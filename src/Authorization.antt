-- ===== src/Authorization.antt =====
-- The authorization of a tool call in crates/runonmine-mcp: mcp/runtime.rs, mcp/server.rs,
-- authorization.rs, audit.rs, approval_flow.rs and the capability tables of validation.rs.
pub mod Access
pub mod Decision
pub mod Recording
pub mod Waiting
pub mod Ending
pub mod Server
pub mod Statuses
pub mod Consent
pub mod Soundness
pub mod Visibility
