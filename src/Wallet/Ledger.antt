-- ===== src/Wallet/Ledger.antt =====
-- What the statements of the wallet's store keep of the ledger.
pub mod Pairs
pub mod Lifecycle
pub mod Money
