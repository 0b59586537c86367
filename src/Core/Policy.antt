-- ===== src/Core/Policy.antt =====
-- core/policy/index.ts, in three parts.
pub mod Matcher
pub mod Condition
pub mod Engine
mod Tests
