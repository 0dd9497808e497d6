-- ===== src/Auth.antt =====
-- app/modules/auth.
pub mod Otp
pub mod Repository
pub mod Service
pub mod Tokens
pub mod Routes
