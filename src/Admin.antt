-- ===== src/Admin.antt =====
-- The administration of gateway routes: libs/rlb-nestjs-amqp/src/modules/gateway-admin.
pub mod Manifest
pub mod Diff
pub mod Paths
pub mod Metrics
pub mod Order
pub mod Rollup
pub mod Sync
mod Tests
