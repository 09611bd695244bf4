-- ===== src/Improvement.antt =====
-- The improvement loop: procedures/improvement_scan.py finds sessions that may teach something and puts
-- candidates in a queue, procedures/improvement_propose.py gives them out.
pub mod Signals
pub mod Scan
pub mod Queue
mod Tests
