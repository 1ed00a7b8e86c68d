-- ===== src/Engine.antt =====
-- internal/engine
pub mod Types
pub mod Outcome
pub mod Sessions
pub mod Locks
pub mod Run
pub mod Console
pub mod Bus
pub mod Records
pub mod Diff
pub mod Manager
pub mod Data
mod Tests
