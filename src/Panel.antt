-- ===== src/Panel.antt =====
-- The control plane, services/panel-api.
pub mod Nodes
pub mod Subscriptions
pub mod Devices
pub mod Traffic
pub mod Validate
pub mod Render
pub mod Bundle
