-- ===== src/Cron.antt =====
-- tools/cron_tool.py: which schedules an agent may set up, and the command that sets one up.
pub mod Arguments
pub mod Plan
pub mod Guarded
mod Tests
