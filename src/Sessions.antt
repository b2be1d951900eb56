-- ===== src/Sessions.antt =====
-- Sessions in Redis (src/sessions).
pub mod RoundTrip
pub mod Cookie
mod Tests
pub mod Store
pub mod Lifetime
