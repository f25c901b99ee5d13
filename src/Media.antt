-- ===== src/Media.antt =====
-- internal/media: the items, their files and the libraries.
pub mod Files
pub mod Containment
pub mod Browse
pub mod Sorted
pub mod Paging
pub mod Library
pub mod Unmounted
pub mod Registration
pub mod Tree
pub mod Disk
pub mod Scan
pub mod Walk
pub mod Held
pub mod Visible
pub mod Subtitles
pub mod Beside
pub mod Webvtt
pub mod Counts
pub mod Growth
pub mod Hierarchy
