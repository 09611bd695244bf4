-- ===== src/Retention.antt =====
-- procedures/memory_retention.py: the deleter that prunes memory files at terminal age.
pub mod Entry
pub mod Prune
pub mod Run
mod Tests
