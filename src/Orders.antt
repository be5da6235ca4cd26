-- ===== src/Orders.antt =====
-- internal/orders: the life of an order and of its legs, and what each executor is paid.
pub mod Legs
pub mod Pricing
pub mod Record
pub mod Store
pub mod Audience
pub mod Handler
pub mod Escrow
pub mod Replies
pub mod Placing
pub mod Feed
pub mod Dashboard
pub mod Columns
pub mod Race
