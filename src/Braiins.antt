-- ===== src/Braiins.antt =====
-- internal/braiins: the API client and the shapes of its responses.
pub mod Types
pub mod Errors
pub mod Backoff
pub mod Retry
pub mod Redact
pub mod Request
pub mod Tests
