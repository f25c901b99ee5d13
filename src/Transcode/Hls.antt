-- ===== src/Transcode/Hls.antt =====
-- The transcode sessions of internal/transcode/hls.go.
pub mod Manager
pub mod Args
pub mod Wait
pub mod Calls
pub mod Eviction
pub mod Sound
pub mod Supervision
pub mod Patience
pub mod Polled
pub mod Beside
pub mod Stuck
