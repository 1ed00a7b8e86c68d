-- ===== src/Agentapi.antt =====
-- internal/agentapi
pub mod Hub
pub mod Jobs
pub mod Locks
mod Samples
mod Tests
