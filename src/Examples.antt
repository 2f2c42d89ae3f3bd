-- ===== src/Examples.antt =====
-- Concrete inputs: test data, and the theorems applied to it.
pub mod AuditData
mod PolicyCases
mod LimiterCases
mod AuditCases
mod ApprovalCases
mod GateCases
mod SessionCases
mod VisibilityCases
pub mod OAuthCases
mod ServiceCases
mod SupervisorCases
