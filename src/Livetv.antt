-- ===== src/Livetv.antt =====
-- internal/livetv: live television from a playlist.
pub mod M3u
pub mod Playlist
pub mod Guide
pub mod Sorting
pub mod Schedule
pub mod Xmltv
pub mod Reload
pub mod Lineup
pub mod Logo
