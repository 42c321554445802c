-- ===== src/Http.antt =====
-- internal/platform/httpplatform: middleware in front of the handlers.
pub mod Authenticate
pub mod Hosts
pub mod Static
pub mod Wrap
pub mod RateLimit
