-- ===== src/L1Cache.antt =====
-- src/cachekit/l1_cache.py: the in-memory cache of bytes in front of the backend. State has the
-- record and the helpers, Calls the public methods, Run their sequences; the others prove.
pub mod State
pub mod Calls
pub mod Entries
pub mod Exact
pub mod Evict
pub mod Put
pub mod Drift
pub mod Run
pub mod Reads
pub mod Manager
pub mod Budget
mod Tests
