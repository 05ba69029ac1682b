-- ===== src/ObjectCache.antt =====
-- src/cachekit/object_cache.py: the in-memory object cache with TTL, LRU eviction, byte bounds and
-- stale-while-revalidate. State has the record and `__init__`, Evict the private helpers, Calls the
-- public methods, Run their sequences; the others prove.
pub mod State
pub mod Evict
pub mod Calls
pub mod Run
pub mod Invariant
pub mod Changes
pub mod Counted
pub mod Fits
pub mod Bounds
pub mod Limits
pub mod Reads
pub mod Refresh
mod Tests
