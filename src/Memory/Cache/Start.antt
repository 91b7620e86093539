-- ===== src/Memory/Cache/Start.antt =====
-- CXMemoryCache before its first block: a cache that Initialize left for later, or a destroyed one.
use konsan_net.Prelude.{
  ℕ, ◌+◌, ◌*◌, ◌<◌, ◌≤◌, ◌^◌, ◌≡◌, refl, ◌∙◌, true, false, Option, none, some, List, [], ◌∷◌, arith,
  length,
}
use konsan_net.Chain.{span}
use konsan_net.Memory.Cache.{
  MemoryCache, get_object, get_inited, take_object, real_initialize, allocate_memory_block,
}
use konsan_net.Memory.Cache.Invariant.{Holds, grown, allocate_grown, grown-Holds}
use konsan_net.Memory.Cache.Get.{get_object-Holds}

-- A cache that owns no memory now; it takes a block when it is used next.
pub record Blank (m : MemoryCache) : Type 0 where
  pub not_inited : m.inited ≡ false
  pub no_head : m.empty_head ≡ none
  pub no_end : m.empty_end ≡ none
  pub none_using : m.number_of_using_nodes ≡ 0
  pub none_total : m.number_of_total_nodes ≡ 0
  pub room : 2 ≤ m.object_num
  pub sized : 0 < m.object_size
  pub small : (24 + m.object_size) * m.object_num < 2 ^ 31

started : ℕ → MemoryCache → MemoryCache
started now m = record (grown m) { inited = true; last_used_time = now }

started-Holds :
    (now : ℕ) (m : MemoryCache)
    → Blank m
    → m.object_num < 2 ^ 31
    → Holds (started now m) (span m.allocated m.object_num) []
unfolding started grown
started-Holds now m b n =
    let start : MemoryCache = record m { inited = true; last_used_time = now } in
    let empty : Holds start [] [] = record {
      chain = b.no_head;
      ends = b.no_end;
      apart = tt;
      inside = tt;
      using_count = b.none_using;
      total_count = b.none_total;
      ready = refl;
      room = b.room;
      sized = b.sized;
      small = b.small;
      bounded = omega arith;
    } in
    grown-Holds start [] empty (omega arith)

started_room :
    (now : ℕ) (m : MemoryCache)
    → m.object_num + m.object_num < 2 ^ 31
    → length {A = ℕ} [] + (started now m).object_num < 2 ^ 31
unfolding started grown
started_room now m h = omega arith

get_started :
    (now : ℕ) (m : MemoryCache)
    → Blank m
    → get_object true now m ≡ get_object true now (started now m)
unfolding get_object real_initialize started
get_started now m b = ground (arith, b, allocate_grown m b.room b.small)

num_small : (s n : ℕ) → (24 + s) * n < 2 ^ 31 → n + n < 2 ^ 31
num_small s n h = grind arith

-- The first GetObject of a cache without memory allocates a block and returns its first object.
pub get_object-Blank :
    (now : ℕ) (m : MemoryCache)
    → Blank m
    → (a : ℕ) × (r : MemoryCache) × (get_object true now m ≡ some (some a, r))
      × (rest : List ℕ) × Holds r rest (a ∷ [])
get_object-Blank now m b =
    let bound = num_small m.object_size m.object_num b.small in
    let (a, r, got, fresh, rest, holds, order) =
      get_object-Holds (started now m) now (span m.allocated m.object_num) []
        (started-Holds now m b (omega arith)) (started_room now m bound) in
    (a, r, get_started now m b ∙ got, rest, holds)

-- GetObject does not change how many objects a block has.
pub get_object-object_num :
    (now : ℕ) (m r : MemoryCache) (o : Option ℕ)
    → get_object true now m ≡ some (o, r)
    → r.object_num ≡ m.object_num
unfolding get_object get_inited real_initialize allocate_memory_block take_object
get_object-object_num now m r o e = ground arith
