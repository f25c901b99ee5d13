-- ===== src/Server.antt =====
-- internal/server: the parts of the HTTP layer that hold state or decide by themselves.
pub mod RateLimit
pub mod ClientIp
pub mod Proxy
pub mod Login
pub mod Admission
pub mod Users
pub mod Items
pub mod NextUp
pub mod Unwatched
pub mod TwoFactor
pub mod Routes
pub mod Untouched
pub mod Ownership
pub mod Url
pub mod Hls
