-- ===== src/Route.antt =====
-- tools/route.py: the gate between a proposal and what an approval of it does.
pub mod Proposal
pub mod Gate
pub mod DupScan
pub mod Verify
pub mod Approve
mod Tests
