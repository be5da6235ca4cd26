-- ===== src/Examples.antt =====
-- Concrete runs of the services, at which the theorems are applied.
pub mod Data
pub mod Wallet
pub mod Orders
pub mod AuthData
pub mod Auth
pub mod SignIn
pub mod Reviews
pub mod Race
pub mod Services
pub mod Calls
pub mod Connections
pub mod Payout
