-- ===== src/RateLimit.antt =====
-- The sliding-window rate limiter (src/ratelimit).
pub mod Adapters
mod Tests
pub mod Bound
pub mod Window
