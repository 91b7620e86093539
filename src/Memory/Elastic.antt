-- ===== src/Memory/Elastic.antt =====
-- CXMemoryCache/src/CXElasticMemoryCache.cpp. The members m_firstObj and m_secondObj are `cache true`
-- and `cache false`; `current` says which of them m_pCacheObj points to, m_pCacheObjBak points to the
-- other. A client's object is an address with the cache that its field pThis names. An operation is
-- none where the source divides by zero, or where CXMemoryCache faults.
pub mod Safety
pub mod Lending
use konsan_net.Prelude.{
  ℕ, ◌+◌, ◌/◌, Bool, true, false, ◌&&◌, not, Option, none, some, leb, ◌==◌, if◌then◌else◌, add32,
}
use konsan_net.Memory.Cache
use konsan_net.Memory.Cache.{MemoryCache, new_cache}

pub record Elastic : Type 0 where
  pub first : MemoryCache
  pub second : MemoryCache
  pub current : Bool
  pub auto_compact_memory : Bool
  pub is_swapping : Bool

abbrev pub Handle : Type 0
Handle = Bool × ℕ

unfoldable pub cache : Bool → Elastic → MemoryCache
cache true c = c.first
cache false c = c.second

unfoldable pub put : Bool → MemoryCache → Elastic → Elastic
put true m c = record c { first = m }
put false m c = record c { second = m }

-- CXElasticMemoryCache::CXElasticMemoryCache
unfoldable pub new_elastic : ℕ → Elastic
new_elastic now = record {
  first = new_cache now;
  second = new_cache now;
  current = true;
  auto_compact_memory = true;
  is_swapping = false;
}

-- CXElasticMemoryCache::Initialize
unfoldable pub initialize : Bool → ℕ → ℕ → ℕ → Bool → Elastic → Option (Bool × Elastic)
initialize succeeds now size number at_once c =
    elim (Cache.initialize succeeds now size number false c.second) [
      | none ↦ none
      | some (_, s) ↦ elim (Cache.initialize succeeds now size number at_once c.first) [
        | none ↦ none
        | some (done, f) ↦ some (done, record c { first = f; second = s })
      ]
    ]

-- CXElasticMemoryCache::Destroy
unfoldable pub destroy : ℕ → Elastic → Elastic
destroy now c = record c { first = Cache.destroy now c.first; second = Cache.destroy now c.second }

-- CXElasticMemoryCache::CompactMemory, the part that swaps.
unfoldable pub swap_caches : ℕ → Elastic → Option Elastic
swap_caches now c =
    let cur = cache c.current c in
    let bak = cache (not c.current) c in
    let using = cur.number_of_using_nodes in
    let swapped : Elastic = record (put (not c.current) (Cache.record_used_time now bak) c) {
      current = not c.current;
      is_swapping = true;
    } in
    if not c.is_swapping && (leb 3 cur.memory_blocks_number && bak.number_of_using_nodes == 0)
    then (if using == 0
        then none
        else if leb 3 (cur.number_of_total_nodes / using)
        then some swapped
        else some c)
    else some c

-- The part that destroys a cache without used objects.
unfoldable pub retire_backup : ℕ → Elastic → Elastic
retire_backup now c =
    let bak = cache (not c.current) c in
    if c.is_swapping && bak.number_of_using_nodes == 0
    then record (put (not c.current) (Cache.destroy now bak) c) { is_swapping = false }
    else c

unfoldable pub compact_memory : ℕ → Elastic → Option Elastic
compact_memory now c = elim (swap_caches now c) [
  | none ↦ none
  | some d ↦ some (retire_backup now d)
]

unfoldable pub prepare : ℕ → Elastic → Option Elastic
prepare now c = if c.auto_compact_memory then compact_memory now c else some c

-- CXElasticMemoryCache::GetObject
unfoldable pub get_current : Bool → ℕ → Elastic → Option (Option Handle × Elastic)
get_current succeeds now c = elim (Cache.get_object succeeds now (cache c.current c)) [
  | none ↦ none
  | some (none, m) ↦ some (none, put c.current m c)
  | some (some a, m) ↦ some (some (c.current, a), put c.current m c)
]

unfoldable pub get_object : Bool → ℕ → Elastic → Option (Option Handle × Elastic)
get_object succeeds now c = elim (prepare now c) [
  | none ↦ none
  | some d ↦ get_current succeeds now d
]

-- CXElasticMemoryCache::FreeObject of an object that is not NULL.
unfoldable pub free_handle : ℕ → Handle → Elastic → Elastic
free_handle now (owner, a) c = put owner (Cache.free_object now a (cache owner c)) c

unfoldable pub free_object : ℕ → Handle → Elastic → Option Elastic
free_object now h c = elim (prepare now c) [ none ↦ none | some d ↦ some (free_handle now h d) ]

-- CXElasticMemoryCache::GetUnusedState: the used objects and the idle seconds, both 0 while swapping.
unfoldable pub get_unused_state : ℕ → Elastic → ℕ × ℕ
get_unused_state now c =
    let (using, idle) = Cache.get_unused_state now (cache c.current c) in
    if c.is_swapping
    then (0, 0)
    else (add32 using (cache (not c.current) c).number_of_using_nodes, idle)
