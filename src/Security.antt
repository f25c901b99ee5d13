-- ===== src/Security.antt =====
-- internal/security: one-time codes.
pub mod Totp
pub mod Codes
