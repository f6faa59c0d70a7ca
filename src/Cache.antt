-- ===== src/Cache.antt =====
-- The caches of sylar/ds: the counters (cache_status.h) and the LRU caches (lru_cache.h).
-- A lock only makes an operation atomic, so an operation is one step on the state.
pub mod Status
pub mod Dict
pub mod Lru
pub mod HashLru
pub mod Timed
mod Tests
