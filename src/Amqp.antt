-- ===== src/Amqp.antt =====
-- The AMQP connection layer: libs/rlb-nestjs-amqp/src/amqp-lib/amqp.
pub mod Routing
pub mod Retry
pub mod Consumer
pub mod Drain
pub mod Request
mod Tests
