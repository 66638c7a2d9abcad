-- ===== src/Acl.antt =====
-- The access-control module: libs/rlb-nestjs-amqp/src/modules/acl.
pub mod Models
pub mod Match
pub mod Cache
pub mod Service
pub mod Race
pub mod Management
mod Tests
