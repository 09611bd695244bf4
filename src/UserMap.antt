-- ===== src/UserMap.antt =====
-- procedures/compile_user.py: the managed block of USER.md.
pub mod Upsert
mod Tests
