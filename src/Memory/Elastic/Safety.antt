-- ===== src/Memory/Elastic/Safety.antt =====
-- CXElasticMemoryCache: compaction takes no memory from a client.
use konsan_net.Prelude.{
  ℕ, ◌≤◌, ◌≡◌, ◌↔◌, refl, ◌∙◌, sym, Bool, true, false, not, none, some, ◌⊎◌, inl, inr, List, [],
  ◌∷◌, arith, length, Bool-cases,
}
use konsan_net.Memory.Cache
use konsan_net.Memory.Cache.{MemoryCache}
use konsan_net.Memory.Cache.Invariant.{Holds}
use konsan_net.Memory.Cache.Start.{Blank}
use konsan_net.Memory.Elastic.{
  Elastic, cache, put, swap_caches, retire_backup, compact_memory, prepare,
}

-- A cache of blocks of `n` objects, whose clients hold `live`.
abbrev pub Lends : ℕ → MemoryCache → List ℕ → Type 0
Lends n m live = ((Blank m × (live ≡ [])) ⊎ ((es : List ℕ) × Holds m es live)) × (m.object_num ≡ n)

-- What the clients hold of each cache.
abbrev pub Lent : ℕ → Elastic → (Bool → List ℕ) → Type 0
Lent n c live = (b : Bool) → Lends n (cache b c) (live b)

abbrev pub DividesByZero : Elastic → Type 0
DividesByZero c =
    (c.is_swapping ≡ false)
    × (3 ≤ (cache c.current c).memory_blocks_number)
    × ((cache (not c.current) c).number_of_using_nodes ≡ 0)
    × ((cache c.current c).number_of_using_nodes ≡ 0)

-- CompactMemory faults exactly where no object is in use, the current cache has three blocks or more,
-- and the caches are not being swapped.
pub compact_memory-DividesByZero :
    (now : ℕ) (c : Elastic) → (compact_memory now c ≡ none) ↔ DividesByZero c
unfolding compact_memory swap_caches
compact_memory-DividesByZero now c = ground arith

cache-put_self : (b : Bool) (m : MemoryCache) (c : Elastic) → cache b (put b m c) ≡ m
unfolding cache put
cache-put_self true m c = refl
cache-put_self false m c = refl

cache-put_other :
    (b : Bool) (m : MemoryCache) (c : Elastic) → cache (not b) (put b m c) ≡ cache (not b) c
unfolding cache put
cache-put_other true m c = refl
cache-put_other false m c = refl

length_zero : (xs : List ℕ) → length xs ≡ 0 → xs ≡ []
length_zero [] e = refl
length_zero (x ∷ xs) e = absurd (omega arith)

-- A cache from which nothing is lent may be destroyed.
pub destroy-Lends :
    (n now : ℕ) (m : MemoryCache) (live : List ℕ)
    → Lends n m live
    → m.number_of_using_nodes ≡ 0
    → Lends n (Cache.destroy now m) live
unfolding Cache.destroy
destroy-Lends n now m live (inl (b, e), f) z = (inl (ground (arith, b.not_inited), e), ground arith)
destroy-Lends n now m live (inr (es, h), f) z = (
  inl (ground (arith, h.ready, h.room, h.small, h.sized), length_zero live (sym h.using_count ∙ z)),
  ground arith,
)

record_used_time-Lends :
    (n now : ℕ) (m : MemoryCache) (live : List ℕ)
    → Lends n m live
    → Lends n (Cache.record_used_time now m) live
unfolding Cache.record_used_time
record_used_time-Lends n now m live (inl (b, e), f) = (inl (ground (arith, b), e), f)
record_used_time-Lends n now m live (inr (es, h), f) = (inr (es, ground (arith, h)), f)

put-Lent :
    (n : ℕ) (b : Bool) (m : MemoryCache) (c : Elastic) (live : Bool → List ℕ)
    → Lends n m (live b)
    → Lent n c live
    → Lent n (put b m c) live
unfolding cache put
put-Lent n true m c live h k true = h
put-Lent n true m c live h k false = k false
put-Lent n false m c live h k true = k true
put-Lent n false m c live h k false = h

flags-Lent :
    (n : ℕ) (cur swapping : Bool) (c : Elastic) (live : Bool → List ℕ)
    → Lent n c live
    → Lent n (record c { current = cur; is_swapping = swapping }) live
unfolding cache
flags-Lent n cur swapping c live k true = k true
flags-Lent n cur swapping c live k false = k false

pub swapped : ℕ → Elastic → Elastic
swapped now c =
    record (put (not c.current) (Cache.record_used_time now (cache (not c.current) c)) c) {
      current = not c.current;
      is_swapping = true;
    }

retired : ℕ → Elastic → Elastic
retired now c = record (put (not c.current) (Cache.destroy now (cache (not c.current) c)) c) {
  is_swapping = false;
}

swap_caches_cases :
    (now : ℕ) (c : Elastic)
    → ¬ DividesByZero c
    → (swap_caches now c ≡ some c) ⊎ (swap_caches now c ≡ some (swapped now c))
unfolding swap_caches swapped
swap_caches_cases now c n = ground arith

retire_backup_cases :
    (now : ℕ) (c : Elastic)
    → (retire_backup now c ≡ c)
      ⊎ ((retire_backup now c ≡ retired now c)
          × ((cache (not c.current) c).number_of_using_nodes ≡ 0))
unfolding retire_backup retired
retire_backup_cases now c = ground arith

compact_memory-some :
    (now : ℕ) (c d : Elastic)
    → swap_caches now c ≡ some d
    → compact_memory now c ≡ some (retire_backup now d)
unfolding compact_memory
compact_memory-some now c d e = ground arith

retire-Lent :
    (n : ℕ) (now : ℕ) (c : Elastic) (live : Bool → List ℕ)
    → Lent n c live
    → Lent n (retire_backup now c) live
unfolding retired
retire-Lent n now c live k = elim (retire_backup_cases now c) [
  | inl same ↦ rw same k
  | inr (done, idle) ↦ rw done (
      flags-Lent n _ false _ live (
        put-Lent n (not c.current) _ c live
          (destroy-Lends n now _ (live (not c.current)) (k (not c.current)) idle) k))
]

swapped-Lent :
    (n : ℕ) (now : ℕ) (c : Elastic) (live : Bool → List ℕ)
    → Lent n c live
    → Lent n (swapped now c) live
unfolding swapped
swapped-Lent n now c live k = flags-Lent n (not c.current) true _ live (
    put-Lent n (not c.current) _ c live
      (record_used_time-Lends n now _ (live (not c.current)) (k (not c.current))) k)

-- CompactMemory, where it does not fault, leaves every object of every client where it was.
pub compact_memory-Lent :
    (n : ℕ) (now : ℕ) (c : Elastic) (live : Bool → List ℕ)
    → Lent n c live
    → ¬ DividesByZero c
    → (d : Elastic) × (compact_memory now c ≡ some d) × Lent n d live
compact_memory-Lent n now c live k z = elim (swap_caches_cases now c z) [
  | inl same ↦ (retire_backup now c, compact_memory-some now c c same, retire-Lent n now c live k)
  | inr done ↦ (
    retire_backup now (swapped now c),
    compact_memory-some now c (swapped now c) done,
    retire-Lent n now (swapped now c) live (swapped-Lent n now c live k),
  )
]

prepare-on :
    (now : ℕ) (c : Elastic) → c.auto_compact_memory ≡ true → prepare now c ≡ compact_memory now c
unfolding prepare
prepare-on now c e = ground arith

prepare-off : (now : ℕ) (c : Elastic) → c.auto_compact_memory ≡ false → prepare now c ≡ some c
unfolding prepare
prepare-off now c e = ground arith

pub prepare-Lent :
    (n : ℕ) (now : ℕ) (c : Elastic) (live : Bool → List ℕ)
    → Lent n c live
    → ¬ DividesByZero c
    → (d : Elastic) × (prepare now c ≡ some d) × Lent n d live
prepare-Lent n now c live k z = elim (Bool-cases c.auto_compact_memory) [
  | inl on ↦
      let (d, done, lent) = compact_memory-Lent n now c live k z in
      (d, prepare-on now c on ∙ done, lent)
  | inr off ↦ (c, prepare-off now c off, k)
]
