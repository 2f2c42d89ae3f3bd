-- ===== src/Supervisor.antt =====
-- The supervisor of the connector processes (runonmine-connectors, supervisor.rs).
pub mod Restart
pub mod Process
pub mod Run
pub mod Backoff
pub mod Ending
pub mod Termination
