-- ===== src/Session.antt =====
-- procedures/session_reset.py: which sessions are reset, and the transcripts that are archived.
pub mod Clean
pub mod Chain
pub mod Filter
pub mod Archive
pub mod Flush
pub mod Reset
pub mod Old
pub mod Orphans
mod Tests
