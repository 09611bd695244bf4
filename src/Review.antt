-- ===== src/Review.antt =====
-- procedures/memory_review.py: the daily batched review of the memory files.
pub mod Batch
pub mod Verdicts
pub mod Bucket
pub mod Prefilter
pub mod File
pub mod Run
mod Tests
