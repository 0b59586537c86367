-- ===== src/Integration.antt =====
-- The passage from protocol envelopes to the core's intents.
pub mod Envelope
pub mod EcpBridge
