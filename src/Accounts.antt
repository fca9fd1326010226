-- ===== src/Accounts.antt =====
-- The Account Service: services/account-service/app.
pub mod Bank
pub mod Settle
pub mod Backing
pub mod Cash
pub mod Holds
pub mod Views
pub mod Ledger
mod Tests
