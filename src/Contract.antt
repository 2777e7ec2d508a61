-- ===== src/Contract.antt =====
-- How the two services agree on configuration bundles.
pub mod Gates
pub mod Decoding
pub mod Payload
pub mod Deployment
pub mod Delivery
pub mod Deploy
pub mod Deployable
pub mod Rollback
pub mod Restore
