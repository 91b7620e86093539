-- ===== src/Memory/Tests.antt =====
-- CXMemoryCache at concrete caches: the theorems at inputs that meet their hypotheses.
use konsan_net.Prelude.{
  ℕ, ◌≡◌, refl, Bool, true, false, none, some, List, [], ◌∷◌, arith, inl, inr, ◌==◌, if◌then◌else◌,
  ◌⊎◌, Fresh,
}
use konsan_net.Memory.Cache
use konsan_net.Memory.Cache.{MemoryCache}
use konsan_net.Memory.Cache.Invariant.{Holds}
use konsan_net.Memory.Cache.Get.{get_object-Holds}
use konsan_net.Memory.Elastic
use konsan_net.Memory.Elastic.{Elastic, cache, compact_memory}
use konsan_net.Memory.Elastic.Safety.{Lent, DividesByZero}
use konsan_net.Memory.Elastic.Lending.{gain, hold, get_object-Lent, free_object-Lent}

-- A block of three buffers of 256 bytes: a client holds the first.
abbrev one_lent : MemoryCache
one_lent = record {
  empty_head = some 1;
  empty_end = some 2;
  blocks = 0 ∷ [];
  memory_blocks_number = 1;
  object_num = 3;
  object_size = 256;
  inited = true;
  number_of_using_nodes = 1;
  number_of_total_nodes = 3;
  last_used_time = 100;
  next = λ x. if x == 1 then some 2 else none;
  allocated = 3;
}

one_lent-Holds : Holds one_lent (1 ∷ 2 ∷ []) (0 ∷ [])
one_lent-Holds = record {
  chain = (refl, (refl, refl));
  ends = refl;
  apart = omega arith;
  inside = omega arith;
  using_count = refl;
  total_count = refl;
  ready = refl;
  room = omega arith;
  sized = omega arith;
  small = omega arith;
  bounded = omega arith;
}

-- A cache of the same buffers that has no block yet.
abbrev blank_cache : MemoryCache
blank_cache = record one_lent {
  empty_head = none;
  empty_end = none;
  blocks = [];
  memory_blocks_number = 0;
  inited = false;
  number_of_using_nodes = 0;
  number_of_total_nodes = 0;
  next = λ _. none;
  allocated = 0;
}

abbrev two_caches : Elastic
two_caches = record {
  first = one_lent;
  second = blank_cache;
  current = true;
  auto_compact_memory = true;
  is_swapping = false;
}

abbrev held : Bool → List ℕ
held true = 0 ∷ []
held false = []

two_caches-Lent : Lent 3 two_caches held
unfolding cache
two_caches-Lent true = (inr (1 ∷ 2 ∷ [], one_lent-Holds), refl)
two_caches-Lent false = (inl (ground arith, refl), refl)

two_caches_compact : ¬ DividesByZero two_caches
unfolding cache
two_caches_compact h = omega arith

get_object-Holds_example :
    (a : ℕ) × (r : MemoryCache) × (Cache.get_object true 105 one_lent ≡ some (some a, r))
    × Fresh a (0 ∷ [])
    × (rest : List ℕ) × Holds r rest (a ∷ 0 ∷ [])
    × ((◌≡◌ {A = List ℕ} (1 ∷ 2 ∷ []) (a ∷ rest)) ⊎ (◌≡◌ {A = List ℕ} (1 ∷ 2 ∷ []) []))
get_object-Holds_example =
    get_object-Holds one_lent 105 (1 ∷ 2 ∷ []) (0 ∷ []) one_lent-Holds (omega arith)

get_object-Lent_example :
    (owner : Bool) × (a : ℕ) × (r : Elastic) × (Elastic.get_object true 105 two_caches
      ≡ some (some (owner, a), r))
    × Fresh a (held owner)
    × Lent 3 r (gain owner a held)
get_object-Lent_example =
    get_object-Lent 3 105 two_caches held two_caches-Lent two_caches_compact (omega arith)
      (omega arith)

free_object-Lent_example :
    (r : Elastic) × (Elastic.free_object 105 (true, 0) two_caches ≡ some r)
    × Lent 3 r (hold true [] held)
free_object-Lent_example =
    free_object-Lent 3 105 two_caches held true [] 0 [] two_caches-Lent two_caches_compact refl
