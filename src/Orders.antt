-- ===== src/Orders.antt =====
-- The order service: services/order-service/app.
pub mod Status
pub mod Evolution
pub mod Fills
pub mod Place
pub mod Cancel
pub mod Reconcile
pub mod Listing
mod Tests
