-- ===== src/Store.antt =====
-- internal/store
pub mod Config
pub mod Scenarios
pub mod Drafts
mod Tests
