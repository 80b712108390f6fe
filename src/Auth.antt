-- ===== src/Auth.antt =====
-- internal/auth: one-time passwords, refresh tokens, access tokens and keys.
pub mod Runtime
pub mod Otp
pub mod Refresh
pub mod Tokens
pub mod Keys
