-- ===== src/Auth.antt =====
-- internal/auth: accounts, logins with lockout, sessions and two-factor enrolment.
pub mod Service
pub mod Sessions
pub mod TwoFactor
pub mod Access
pub mod Lockout
pub mod Tokens
pub mod Enrolment
