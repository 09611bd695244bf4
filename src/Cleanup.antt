-- ===== src/Cleanup.antt =====
-- procedures/memory_cleanup.py: the daily cleanup of the memory files and of the index.
pub mod Cluster
pub mod Dedup
pub mod Expiring
pub mod Passes
pub mod Index
mod Tests
