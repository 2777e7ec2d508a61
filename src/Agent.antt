-- ===== src/Agent.antt =====
-- The node agent, services/node-agent.
pub mod Model
pub mod Xray
pub mod Verify
pub mod Runtime
pub mod Service
pub mod Machine
pub mod Staging
pub mod Persisting
pub mod Applying
pub mod Polling
pub mod Restoring
pub mod Supervisor
