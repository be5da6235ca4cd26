-- ===== src/Httpx.antt =====
-- pkg/httpx: the error codes, the claims of a verified token, and the guards of the routes.
pub mod Core
pub mod Guards
pub mod Mux
pub mod Reply
pub use Core.*
