-- ===== src/Memory/Cache.antt =====
-- CXMemoryCache/src/CXMemoryCache.cpp. The objects of a cache are addresses; `next` is the field
-- pNext of all struct cx_cache_obj, `allocated` the first address that no block has taken. What a
-- buffer contains is not modelled, so neither is its clearing. An operation is none where the source
-- overflows an int or writes past a block. The argument of Bool type says whether operator new
-- succeeds, `now` is time(NULL).
pub mod Invariant
pub mod Get
pub mod Start
use konsan_net.Prelude.{
  ℕ, zero, suc, ◌+◌, ◌-◌, ◌*◌, ◌^◌, Bool, true, false, ◌||◌, ◌&&◌, not, Option, none, some, List,
  [], ◌∷◌, ◌++◌, leb, ◌==◌, if◌then◌else◌, add32, sub32, sub64,
}
use konsan_net.Chain.{set_at}

pub record MemoryCache : Type 0 where
  pub empty_head : Option ℕ
  pub empty_end : Option ℕ
  pub blocks : List ℕ
  pub memory_blocks_number : ℕ
  pub object_num : ℕ
  pub object_size : ℕ
  pub inited : Bool
  pub number_of_using_nodes : ℕ
  pub number_of_total_nodes : ℕ
  pub last_used_time : ℕ
  pub next : ℕ → Option ℕ
  pub allocated : ℕ

-- CXMemoryCache::CXMemoryCache
unfoldable pub new_cache : ℕ → MemoryCache
new_cache now = record {
  empty_head = none;
  empty_end = none;
  blocks = [];
  memory_blocks_number = 0;
  object_num = 0;
  object_size = 0;
  inited = false;
  number_of_using_nodes = 0;
  number_of_total_nodes = 0;
  last_used_time = now;
  next = λ _. none;
  allocated = 0;
}

-- The loop over a new block: the object at `a` and `k` more.
unfoldable pub link_objects : ℕ → ℕ → (ℕ → Option ℕ) → ℕ → Option ℕ
link_objects zero a next = set_at next a none
link_objects (suc k) a next = link_objects k (suc a) (set_at next a (some (suc a)))

-- CXMemoryCache::AllocateMemoryBlock: the new block becomes the whole empty list.
unfoldable pub allocate_memory_block : Bool → MemoryCache → Option (Bool × MemoryCache)
allocate_memory_block succeeds m =
    let base = m.allocated in
    if leb (2 ^ 31) ((24 + m.object_size) * m.object_num)
    then none
    else if not succeeds
    then some (false, m)
    else if m.object_num == 0
    then none
    else some (
      true,
      record m {
        next = link_objects (m.object_num - 1) base m.next;
        blocks = m.blocks ++ base ∷ [];
        memory_blocks_number = add32 m.memory_blocks_number 1;
        number_of_total_nodes = add32 m.number_of_total_nodes m.object_num;
        empty_head = some base;
        empty_end = some (base + (m.object_num - 1));
        allocated = base + m.object_num;
      },
    )

-- CXMemoryCache::RealInitialize: true is the return value 0.
unfoldable pub real_initialize : Bool → ℕ → MemoryCache → Option (Bool × MemoryCache)
real_initialize succeeds now m =
    if m.inited then some (true, m) else elim (allocate_memory_block succeeds m) [
      | none ↦ none
      | some (false, r) ↦ some (false, r)
      | some (true, r) ↦ some (true, record r { inited = true; last_used_time = now })
    ]

-- CXMemoryCache::Initialize
unfoldable pub initialize : Bool → ℕ → ℕ → ℕ → Bool → MemoryCache → Option (Bool × MemoryCache)
initialize succeeds now size number at_once m =
    let sized : MemoryCache = record m { object_num = number; object_size = size } in
    if m.inited
    then some (true, m)
    else if at_once
    then real_initialize succeeds now sized
    else some (true, sized)

-- CXMemoryCache::Destroy
unfoldable pub destroy : ℕ → MemoryCache → MemoryCache
destroy now m = if not m.inited then m else record m {
  blocks = [];
  memory_blocks_number = 0;
  empty_head = none;
  empty_end = none;
  inited = false;
  number_of_using_nodes = 0;
  number_of_total_nodes = 0;
  last_used_time = now;
}

-- Object `a` leaves the empty list, whose head was it; the end pointer is `e` from now on.
unfoldable pub take_object : ℕ → Option ℕ → ℕ → MemoryCache → MemoryCache
take_object a e now m = record m {
  empty_head = m.next a;
  empty_end = e;
  next = set_at m.next a none;
  number_of_using_nodes = add32 m.number_of_using_nodes 1;
  last_used_time = now;
}

-- CXMemoryCache::GetObject of an initialised cache. On the empty list's last object the end pointer
-- is reset on the first branch only.
unfoldable pub get_inited : Bool → ℕ → MemoryCache → Option (Option ℕ × MemoryCache)
get_inited succeeds now m = elim m.empty_head [
  | some a ↦
      some (some a, take_object a (elim (m.next a) [ none ↦ none | some _ ↦ m.empty_end ]) now m)
  | none ↦ elim (allocate_memory_block succeeds m) [
    | none ↦ none
    | some (false, r) ↦ some (none, r)
    | some (true, r) ↦ elim r.empty_head [
      | none ↦ none
      | some a ↦ some (some a, take_object a r.empty_end now r)
    ]
  ]
]

-- CXMemoryCache::GetObject: NULL is none in the result.
unfoldable pub get_object : Bool → ℕ → MemoryCache → Option (Option ℕ × MemoryCache)
get_object succeeds now m =
    if m.inited
    then get_inited succeeds now m
    else if m.object_num == 0 || m.object_size == 0
    then some (none, m)
    else elim (real_initialize succeeds now m) [
      | none ↦ none
      | some (false, r) ↦ some (none, r)
      | some (true, r) ↦ get_inited succeeds now r
    ]

-- CXMemoryCache::FreeObject of an object that is not NULL.
unfoldable pub free_object : ℕ → ℕ → MemoryCache → MemoryCache
free_object now a m =
    let cleared = set_at m.next a none in
    let freed : MemoryCache = record m {
      empty_end = some a;
      number_of_using_nodes = sub32 m.number_of_using_nodes 1;
      last_used_time = now;
    } in
    if not m.inited then m else elim m.empty_end [
      | some e ↦ record freed { next = set_at cleared e (some a) }
      | none ↦ record freed { next = cleared; empty_head = some a }
    ]

-- CXMemoryCache::GetUnusedState: the used objects, and the seconds since the last use.
unfoldable pub get_unused_state : ℕ → MemoryCache → ℕ × ℕ
get_unused_state now m =
    if m.inited then (m.number_of_using_nodes, sub64 now m.last_used_time) else (0, 0)

-- CXMemoryCache::RecordUsedTime
unfoldable pub record_used_time : ℕ → MemoryCache → MemoryCache
record_used_time now m = record m { last_used_time = now }
