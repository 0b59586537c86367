-- ===== src/Server.antt =====
-- What guards the HTTP endpoints of src/server.
pub mod RateLimit
pub mod RateLimiter
pub mod Audit
pub mod Auth
