-- ===== src/Peers.antt =====
-- procedures/extract_user.py: what is kept of the people who talk with the assistant.
pub mod Graph
pub mod Derive
mod Tests
