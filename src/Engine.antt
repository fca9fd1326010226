-- ===== src/Engine.antt =====
-- The matching engine: services/matching-engine/app.
pub mod Snapshot
pub mod Book
pub mod Match
pub mod Prices
pub mod Levels
pub mod Swap
pub mod Invariant
pub mod Validity
pub mod Gone
pub mod Desk
mod Samples
mod Tests
