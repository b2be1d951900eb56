-- ===== src/Cache.antt =====
-- src/cache: a cache that treats a failure of Redis as a miss, and a lock.
mod Tests
pub mod Values
pub mod Lock
