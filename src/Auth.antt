-- ===== src/Auth.antt =====
-- Authentication, Backend/src/auth.
mod Tests
pub mod Nonce
pub mod Wallet
pub mod Tokens
pub mod Sessions
