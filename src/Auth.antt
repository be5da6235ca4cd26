-- ===== src/Auth.antt =====
-- internal/auth: who somebody is. Codes by SMS, identity checks, accounts and sessions.
pub mod Otp
pub mod Passes
pub mod Sessions
pub mod Users
pub mod Registry
pub mod Core
pub mod Handler
pub mod SignIn
pub mod Profile
pub mod Requests
