-- ===== src/Broker.antt =====
-- modules/broker: topics on top of the AMQP connection.
pub mod Registry
pub mod Topics
pub mod Service
pub mod Decorators
mod Tests
