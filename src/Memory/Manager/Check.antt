-- ===== src/Memory/Manager/Check.antt =====
-- CXMemoryCacheManager::CheckCachePool destroys only caches from which nothing is lent.
use konsan_net.Prelude.{◌<◌, ◌^◌, ◌≡◌, false}
use konsan_net.Memory.Cache
use konsan_net.Memory.Cache.{MemoryCache}
use konsan_net.Memory.Elastic
use konsan_net.Memory.Elastic.{Elastic}

abbrev Counts : MemoryCache → Type 0
Counts m = (m.number_of_using_nodes < 2 ^ 31) × (m.inited ≡ false → m.number_of_using_nodes ≡ 0)
