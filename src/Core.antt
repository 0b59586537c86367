-- ===== src/Core.antt =====
-- The core library (src/core).
pub mod Types
pub mod Policy
pub mod Intent
pub mod Executor
pub mod Execute
mod Tests
