-- ===== src/Extract.antt =====
-- procedures/extract_memory.py: from the archived sessions to the files of the memory.
pub mod Archive
pub mod Summary
pub mod Tags
pub mod Item
pub mod Known
pub mod Contradiction
pub mod Store
pub mod Run
pub mod Source
mod Tests
