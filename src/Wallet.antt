-- ===== src/Wallet.antt =====
-- internal/wallet: escrow, held for each pair of an order and a payee, then released or refunded.
pub mod Repeated
pub mod Statuses
pub mod Store
pub mod Handler
pub mod Ledger
pub mod Requests
pub mod Replies
pub mod Fresh
pub mod Reads
pub mod Contract
