-- ===== src/Memory.antt =====
-- CXMemoryCache: the caches of equal buffers that the server takes its packets and messages from.
-- `Memory.Cache` is CXMemoryCache, a free list over blocks; `Memory.Elastic` is CXElasticMemoryCache,
-- which swaps two of them to give memory back; `Memory.Manager` is CXMemoryCacheManager, one class of
-- caches for each power of two.
pub mod Cache
pub mod Elastic
pub mod Manager
mod Tests
