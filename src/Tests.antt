-- ===== src/Tests.antt =====
-- The theorems at concrete inputs: one small server, whose hash puts a mark before its text and whose
-- file system accepts every write.
mod Fixtures
mod Storing
mod Entering
mod Limiting
mod Reading
mod Requests
mod Viewing
mod Serving
mod Watching
mod Taping
mod Bucket
mod Bolting
mod Streaming
mod Playing
mod Browsing
mod Owning
mod Scanning
mod Texts
