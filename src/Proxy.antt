-- ===== src/Proxy.antt =====
-- modules/proxy: the HTTP gateway in front of the message broker.
pub mod Provider
pub mod Jwt
pub mod Auth
pub mod Gateway
pub mod Capacity
pub mod Socket
mod Tests
