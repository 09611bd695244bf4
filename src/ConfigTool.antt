-- ===== src/ConfigTool.antt =====
-- tools/config_tool.py: the guarded writer of the root files that an agent reads at every turn.
pub mod Guard
pub mod Sections
pub mod Write
mod Tests
