-- ===== src/Memory/Manager/Locking.antt =====
-- CXMemoryCacheManager::GetMemoryCache and the spin lock that it leaves held.
use konsan_net.Prelude.{
  ℕ, ◌%◌, ◌≤◌, ◌≡◌, ◌≢◌, Bool, true, false, Option, none, some, arith, get_elem?, ◌↔◌,
}
use konsan_net.Memory.Elastic.{Elastic}
use konsan_net.Memory.Manager.{
  Manager, Slots, calculate_index, get_memory_cache, check_cache_pool, destroy,
}

-- The cache that the random number picks for a size is there already.
abbrev pub Present : Manager → ℕ → ℕ → Type 0
Present m random size =
    (size ≤ m.max_object_size)
    × (m.init_cache_number ≢ 0)
    × (cs : Slots) × (c : Elastic) × (get_elem? m.caches (calculate_index size) ≡ some (some cs))
    × (get_elem? cs (random % m.init_cache_number) ≡ some (some c))

-- The bug: GetMemoryCache, called without the lock, leaves it held exactly where it finds the cache.
pub get_memory_cache_lock :
    (succeeds : Bool) (now random size : ℕ) (m r : Manager) (o : Option (ℕ × ℕ))
    → m.locked ≡ false
    → get_memory_cache succeeds now random size m ≡ some (o, r)
    → (r.locked ≡ true) ↔ Present m random size
unfolding get_memory_cache
get_memory_cache_lock b now random size m r o l e = ground arith

-- After that, neither the check of the pool nor the destruction of a running manager returns.
pub held_lock_blocks :
    (now : ℕ) (m : Manager)
    → m.locked ≡ true
    → (check_cache_pool now m ≡ none) × (m.running ≡ true → destroy m ≡ none)
unfolding check_cache_pool destroy
held_lock_blocks now m l = ground arith
