-- ===== src/Security.antt =====
-- The parts of security/ that keep no secret: which domains and keys are trusted.
pub mod Nonces
pub mod Signatures
pub mod Trust
