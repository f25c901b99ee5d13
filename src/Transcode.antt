-- ===== src/Transcode.antt =====
-- internal/transcode: the bitrate ladder, and the transcode sessions.
pub mod Abr
pub mod Hls
