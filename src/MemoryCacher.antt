-- ===== src/MemoryCacher.antt =====
-- utils/memorycacher: the in-memory cache with expiry, a bound on its items, and a janitor.
pub mod Cache
pub mod Counters
pub mod Reads
pub mod Sweep
pub mod Capacity
pub mod Counting
pub mod TypedCounting
pub mod Sharding
pub mod Sharded
pub mod ShardedReads
