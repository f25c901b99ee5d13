-- ===== src/Dvr.antt =====
-- internal/dvr: the recorder.
pub mod Recorder
pub mod Title
pub mod Words
pub mod Series
pub mod Lifecycle
pub mod Round
pub mod Dedupe
pub mod Control
