-- ===== src/Models.antt =====
-- pkg/models: the wire types that the services share.
pub mod Enums
pub mod Order
pub mod Money
pub mod Events
pub mod Licensing
pub mod Admin
