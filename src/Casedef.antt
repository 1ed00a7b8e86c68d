-- ===== src/Casedef.antt =====
-- internal/casedef
pub mod Types
pub mod Validate
mod Tests
