-- ===== src/Memory/Manager.antt =====
-- CXMemoryCache/src/CXMemoryCacheManager.cpp. `caches` is m_ppCaches, 13 arrays of ten caches that
-- may be missing; `locked` says whether the spin lock m_lock is held, and an operation that takes a
-- held lock never returns. An operation is none where the source does not return or faults: it indexes
-- past an array, divides by zero, reads an array that it never filled, or a cache faults. The first
-- argument of Bool type says whether operator new succeeds, `now` is time(NULL), `random` is rand().
pub mod Index
pub mod Locking
pub mod Check
use konsan_net.Prelude.{
  ℕ, zero, suc, ◌+◌, ◌-◌, ◌*◌, ◌/◌, ◌%◌, ◌^◌, Bool, true, false, ◌&&◌, ◌||◌, not, Option, none,
  some, List, [], ◌∷◌, ltb, leb, ◌==◌, if◌then◌else◌, get_elem?, set, replicate, ◌++◌,
}
use konsan_net.Memory.Cache
use konsan_net.Memory.Elastic
use konsan_net.Memory.Elastic.{Elastic, Handle, cache, new_elastic}

abbrev pub max_cache_number_in_one_kind : ℕ
max_cache_number_in_one_kind = 10

abbrev pub cache_array_size : ℕ
cache_array_size = 13

abbrev pub Slots : Type 0
Slots = List (Option Elastic)

pub record Manager : Type 0 where
  pub init_cache_number : ℕ
  pub max_usable_memory_size : ℕ
  pub max_object_size : ℕ
  pub caches : List (Option Slots)
  pub running : Bool
  pub locked : Bool

-- A buffer: its kind, its cache in the array of the kind, and the object.
pub record Buffer : Type 0 where
  pub kind : ℕ
  pub slot : ℕ
  pub handle : Handle

-- CXMemoryCacheManager::CXMemoryCacheManager(DWORD, uint64, DWORD)
unfoldable pub new_manager : ℕ → ℕ → ℕ → Manager
new_manager number memory size = record {
  init_cache_number =
      if ltb max_cache_number_in_one_kind number then max_cache_number_in_one_kind else number;
  max_usable_memory_size = memory;
  max_object_size = if ltb (1024 * 1024) size then 1024 * 1024 else size;
  caches = replicate cache_array_size none;
  running = false;
  locked = false;
}

-- The loop of CalculateIndex: how often a value above one can be halved. `fuel` is at least the value's
-- number of bits.
unfoldable pub halvings : ℕ → ℕ → ℕ
halvings zero v = 0
halvings (suc fuel) v = let more = suc (halvings fuel (v / 2)) in if ltb 1 v then more else 0

-- CXMemoryCacheManager::CalculateIndex of a 32-bit size.
unfoldable pub calculate_index : ℕ → ℕ
calculate_index size =
    let v = size / 256 in
    if v == 0 then 0 else if size % 256 == 0 then halvings 32 v else halvings 32 v + 1

-- CXMemoryCacheManager::AllocCacheAndInit: NULL is none in the result.
unfoldable pub alloc_cache_and_init : Bool → ℕ → ℕ → ℕ → Bool → Option (Option Elastic)
alloc_cache_and_init succeeds now size number at_once =
    if not succeeds
    then some none
    else elim (Elastic.initialize succeeds now size number at_once (new_elastic now)) [
      | none ↦ none
      | some (true, c) ↦ some (some c)
      | some (false, c) ↦ some none
    ]

-- A new array: its first caches made, the others missing. Where one cannot be made, the source frees
-- entries that it never set.
unfoldable pub new_slots : ℕ → Option Elastic → Option Slots
new_slots zero c = some (replicate max_cache_number_in_one_kind none)
new_slots (suc n) none = none
new_slots (suc n) (some c) =
    some (replicate (suc n) (some c) ++ replicate (max_cache_number_in_one_kind - suc n) none)

-- The first missing one of the first `n` caches of an array.
unfoldable pub first_missing : ℕ → Slots → Option ℕ
first_missing zero cs = none
first_missing (suc n) [] = none
first_missing (suc n) (none ∷ cs) = some 0
first_missing (suc n) (some c ∷ cs) = elim (first_missing n cs) [
  | none ↦ none
  | some i ↦ some (suc i)
]

pub data AddResult : Type 0 where
  added invalid_parameter no_memory : AddResult

-- CXMemoryCacheManager::AddCache with an index that is given.
unfoldable pub add_cache : Bool → ℕ → ℕ → ℕ → ℕ → Bool → Manager → Option (AddResult × Manager)
add_cache succeeds now size number index at_once m =
    let made = alloc_cache_and_init succeeds now size number at_once in
    if ltb cache_array_size index || ltb m.max_usable_memory_size size
    then some (invalid_parameter, m)
    else elim (get_elem? m.caches index) [
      | none ↦ none
      | some none ↦ if not succeeds then some (no_memory, m) else elim made [
        | none ↦ none
        | some c ↦ elim (new_slots m.init_cache_number c) [
          | none ↦ none
          | some cs ↦ some (added, record m { caches = set m.caches index (some cs) })
        ]
      ]
      | some (some cs) ↦ elim (first_missing m.init_cache_number cs) [
        | none ↦ some (added, m)
        | some i ↦ elim made [
          | none ↦ none
          | some none ↦ some (no_memory, m)
          | some (some c) ↦
              some (added, record m { caches = set m.caches index (some (set cs i (some c))) })
        ]
      ]
    ]

-- The entry of the configuration that Init takes for a kind, and the others.
unfoldable pub take_config : ℕ → List (ℕ × ℕ) → Option (ℕ × List (ℕ × ℕ))
take_config index [] = none
take_config index ((size, number) ∷ cs) =
    if calculate_index size == index
    then some (number, cs)
    else elim (take_config index cs) [ none ↦ none | some (n, r) ↦ some (n, (size, number) ∷ r) ]

-- One round of Init's loop: a kind that has no array yet gets one.
unfoldable pub init_kind :
    Bool → ℕ → ℕ → List (ℕ × ℕ) → Manager → Option (Bool × List (ℕ × ℕ) × Manager)
init_kind succeeds now index config m =
    let size = 2 ^ index * 256 in
    elim (get_elem? m.caches index) [
      | none ↦ none
      | some (some cs) ↦ some (true, config, m)
      | some none ↦ elim (take_config index config) [
        | none ↦
            elim (add_cache succeeds now size (128 * (cache_array_size - index)) index false m) [
              | none ↦ none
              | some (added, r) ↦ some (true, config, r)
              | some (_, r) ↦ some (false, config, r)
            ]
        | some (number, rest) ↦ elim (add_cache succeeds now size number index true m) [
          | none ↦ none
          | some (added, r) ↦ some (true, rest, r)
          | some (_, r) ↦ some (false, rest, r)
        ]
      ]
    ]

-- Init's loop over the kinds from `index` on, `n` of them.
unfoldable pub init_kinds : Bool → ℕ → ℕ → ℕ → List (ℕ × ℕ) → Manager → Option (Bool × Manager)
init_kinds succeeds now zero index config m = some (true, m)
init_kinds succeeds now (suc n) index config m = elim (init_kind succeeds now index config m) [
  | none ↦ none
  | some (false, rest, r) ↦ some (false, r)
  | some (true, rest, r) ↦ init_kinds succeeds now n (suc index) rest r
]

-- CXMemoryCacheManager::Init up to the start of its thread: false is the return value -2.
unfoldable pub init : Bool → ℕ → List (ℕ × ℕ) → Manager → Option (Bool × Manager)
init succeeds now config m =
    if m.locked then none else elim (init_kinds succeeds now cache_array_size 0 config m) [
      | none ↦ none
      | some (true, r) ↦ some (true, record r { running = true })
      | some (false, r) ↦ some (false, r)
    ]

-- CXMemoryCacheManager::Destory
unfoldable pub destroy : Manager → Option Manager
destroy m =
    if not m.running
    then some m
    else if m.locked
    then none
    else some (record m { running = false; caches = replicate cache_array_size none })

-- CXMemoryCacheManager::GetMemoryCache: the cache that it returns is named by its kind and slot.
unfoldable pub get_memory_cache : Bool → ℕ → ℕ → ℕ → Manager → Option (Option (ℕ × ℕ) × Manager)
get_memory_cache succeeds now random size m =
    let index = calculate_index size in
    let j = random % m.init_cache_number in
    if ltb m.max_object_size size
    then some (none, m)
    else if m.locked
    then none
    else elim (get_elem? m.caches index) [
      | none ↦ none
      | some none ↦ some (none, m)
      | some (some cs) ↦ if m.init_cache_number == 0 then none else elim (get_elem? cs j) [
        | none ↦ none
        | some (some c) ↦ some (some (index, j), record m { locked = true })
        | some none ↦ elim (alloc_cache_and_init succeeds now (2 ^ index * 256) 512 true) [
          | none ↦ none
          | some none ↦ some (none, m)
          | some (some c) ↦
              some (
                some (index, j),
                record m { caches = set m.caches index (some (set cs j (some c))) },
              )
        ]
      ]
    ]

-- An object of the cache in a slot: NULL is none in the result.
unfoldable pub get_from : Bool → ℕ → Slots → ℕ → Elastic → Option (Option Handle × Slots)
get_from succeeds now cs i c = elim (Elastic.get_object succeeds now c) [
  | none ↦ none
  | some (o, d) ↦ some (o, set cs i (some d))
]

-- The loop of GetBuffer over the slots from `i` on, `n` of them, that have an object at hand.
unfoldable pub get_any : Bool → ℕ → ℕ → ℕ → Slots → Option (Option (ℕ × Handle) × Slots)
get_any succeeds now zero i cs = some (none, cs)
get_any succeeds now (suc n) i cs =
    let next = get_any succeeds now n (suc i) cs in
    elim (get_elem? cs i) [
      | none ↦ none
      | some none ↦ next
      | some (some c) ↦ elim (cache c.current c).empty_head [
        | none ↦ next
        | some _ ↦ elim (get_from succeeds now cs i c) [
          | none ↦ none
          | some (some h, ds) ↦ some (some (i, h), ds)
          | some (none, ds) ↦ get_any succeeds now n (suc i) ds
        ]
      ]
    ]

-- GetBuffer in the array of a kind: first the slot `j`, then any.
unfoldable pub get_slot : Bool → ℕ → ℕ → ℕ → Slots → Option (Option (ℕ × Handle) × Slots)
get_slot succeeds now number j cs = elim (get_elem? cs j) [
  | none ↦ none
  | some none ↦ some (none, cs)
  | some (some c) ↦ elim (get_from succeeds now cs j c) [
    | none ↦ none
    | some (some h, ds) ↦ some (some (j, h), ds)
    | some (none, ds) ↦ get_any succeeds now number 0 ds
  ]
]

-- CXMemoryCacheManager::GetBuffer
unfoldable pub get_buffer : Bool → ℕ → ℕ → ℕ → Manager → Option (Option Buffer × Manager)
get_buffer succeeds now random size m =
    let index = calculate_index size in
    if ltb m.max_object_size size then some (none, m) else elim (get_elem? m.caches index) [
      | none ↦ none
      | some none ↦ some (none, m)
      | some (some cs) ↦
          if m.init_cache_number == 0
          then none
          else elim (get_slot succeeds now m.init_cache_number (random % m.init_cache_number) cs) [
            | none ↦ none
            | some (none, ds) ↦ some (none, record m { caches = set m.caches index (some ds) })
            | some (some (i, h), ds) ↦ some (
              some (record { kind = index; slot = i; handle = h }),
              record m { caches = set m.caches index (some ds) },
            )
          ]
    ]

-- CXMemoryCacheManager::FreeBuffer
unfoldable pub free_buffer : ℕ → Buffer → Manager → Option Manager
free_buffer now b m = elim (get_elem? m.caches b.kind) [
  | none ↦ none
  | some none ↦ none
  | some (some cs) ↦ elim (get_elem? cs b.slot) [
    | none ↦ none
    | some none ↦ none
    | some (some c) ↦ elim (Elastic.free_object now b.handle c) [
      | none ↦ none
      | some d ↦ some (record m { caches = set m.caches b.kind (some (set cs b.slot (some d))) })
    ]
  ]
]

-- The tests of MemcpyBytes and MemsetZero on the object size of the buffer's cache.
unfoldable pub memcpy_bytes : ℕ → ℕ → ℕ → Bool
memcpy_bytes object_size offset copy_len = leb (offset + copy_len) object_size

-- One cache in a round of CheckCachePool. The idle time is an int64.
unfoldable pub check_cache : ℕ → Option Elastic → Option Elastic
check_cache now none = none
check_cache now (some c) =
    let (using, idle) = Elastic.get_unused_state now c in
    if using == 0 && (ltb 60 idle && ltb idle (2 ^ 63))
    then some (Elastic.destroy now c)
    else some c

-- The first `n` caches of an array.
unfoldable pub check_slots : ℕ → ℕ → Slots → Slots
check_slots now zero cs = cs
check_slots now (suc n) [] = []
check_slots now (suc n) (c ∷ cs) = check_cache now c ∷ check_slots now n cs

unfoldable pub check_kinds : ℕ → ℕ → List (Option Slots) → List (Option Slots)
check_kinds now n [] = []
check_kinds now n (none ∷ ks) = none ∷ check_kinds now n ks
check_kinds now n (some cs ∷ ks) = some (check_slots now n cs) ∷ check_kinds now n ks

-- One round of CXMemoryCacheManager::CheckCachePool, while the manager runs.
unfoldable pub check_cache_pool : ℕ → Manager → Option Manager
check_cache_pool now m =
    if m.locked
    then none
    else some (record m { caches = check_kinds now m.init_cache_number m.caches })
