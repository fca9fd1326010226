-- ===== src/Gateway.antt =====
-- The gateway: services/gateway/app.
pub mod Breaker
pub mod Routing
pub mod Auth
pub mod RateLimit
pub mod Proxy
pub mod Bridge
mod Tests
