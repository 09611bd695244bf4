-- ===== src/Authority.antt =====
-- procedures/mem_authority.py: who may set standing rules, and what becomes of a rule from somebody else.
pub mod Config
pub mod Owners
pub mod Tier
pub mod Directive
pub mod Gate
mod Tests
