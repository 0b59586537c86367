-- ===== src/Runtime.antt =====
-- The runtime of a micro agent (src/runtime).
pub mod Envelope
pub mod Scope
pub mod MicroAgent
pub mod Outputs
mod Tests
