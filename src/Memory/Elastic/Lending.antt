-- ===== src/Memory/Elastic/Lending.antt =====
-- What GetObject and FreeObject of CXElasticMemoryCache lend and take back.
use konsan_net.Prelude.{
  ℕ, ◌+◌, ◌<◌, ◌^◌, ◌≡◌, ◌∙◌, subst, Bool, true, false, some, inl, inr, List, [], ◌∷◌, ◌++◌, arith,
  length, Fresh,
}
use konsan_net.Memory.Cache
use konsan_net.Memory.Cache.{MemoryCache}
use konsan_net.Memory.Cache.Invariant.{free_object-Holds}
use konsan_net.Memory.Cache.Get.{get_object-Holds}
use konsan_net.Memory.Cache.Start.{get_object-Blank, get_object-object_num}
use konsan_net.Memory.Elastic.{
  Elastic, Handle, cache, put, prepare, get_current, get_object, free_handle, free_object,
}
use konsan_net.Memory.Elastic.Safety.{Lends, Lent, DividesByZero, prepare-Lent}

-- The client of one cache more.
abbrev pub gain : Bool → ℕ → (Bool → List ℕ) → Bool → List ℕ
gain true a live true = a ∷ live true
gain true a live false = live false
gain false a live true = live true
gain false a live false = a ∷ live false

get-Lends :
    (n now : ℕ) (m : MemoryCache) (live : List ℕ)
    → Lends n m live
    → length live + n < 2 ^ 31
    → (a : ℕ) × (r : MemoryCache) × (Cache.get_object true now m ≡ some (some a, r))
      × Fresh a live
      × Lends n r (a ∷ live)
get-Lends n now m live (inl (b, e), f) l =
    let (a, r, got, rest, holds) = get_object-Blank now m b in
    (a, r, got, rw e tt, (inr (rest, rw e holds), get_object-object_num now m r _ got ∙ f))
get-Lends n now m live (inr (es, h), f) l =
    let (a, r, got, fresh, rest, holds, order) = get_object-Holds m now es live h (omega arith) in
    (a, r, got, fresh, (inr (rest, holds), get_object-object_num now m r _ got ∙ f))

put-gain :
    (n : ℕ) (b : Bool) (a : ℕ) (m : MemoryCache) (c : Elastic) (live : Bool → List ℕ)
    → Lends n m (a ∷ live b)
    → Lent n c live
    → Lent n (put b m c) (gain b a live)
unfolding cache put
put-gain n true a m c live h k true = h
put-gain n true a m c live h k false = k false
put-gain n false a m c live h k true = k true
put-gain n false a m c live h k false = h

few :
    (n : ℕ) (live : Bool → List ℕ)
    → length (live true) + n < 2 ^ 31
    → length (live false) + n < 2 ^ 31
    → (b : Bool) → length (live b) + n < 2 ^ 31
few n live f s true = f
few n live f s false = s

get_runs :
    (now a : ℕ) (c d : Elastic) (m : MemoryCache)
    → prepare now c ≡ some d
    → Cache.get_object true now (cache d.current d) ≡ some (some a, m)
    → get_object true now c ≡ some (some (d.current, a), put d.current m d)
unfolding get_object get_current
get_runs now a c d m e f = ground (arith, e, f)

-- While memory lasts, and CompactMemory does not divide by zero, GetObject lends an object that no
-- client of its cache holds, and takes none back.
pub get_object-Lent :
    (n now : ℕ) (c : Elastic) (live : Bool → List ℕ)
    → Lent n c live
    → ¬ DividesByZero c
    → length (live true) + n < 2 ^ 31
    → length (live false) + n < 2 ^ 31
    → (owner : Bool) × (a : ℕ) × (r : Elastic) × (get_object true now c ≡ some (some (owner, a), r))
      × Fresh a (live owner)
      × Lent n r (gain owner a live)
get_object-Lent n now c live k z f s =
    let (d, prepared, lent) = prepare-Lent n now c live k z in
    let b = d.current in
    let (a, m, got, fresh, lends) =
      get-Lends n now (cache b d) (live b) (lent b) (few n live f s b) in
    (b, a, put b m d, get_runs now a c d m prepared got, fresh, put-gain n b a m d live lends lent)

-- What the clients hold once those of cache `b` hold `xs`.
abbrev pub hold : Bool → List ℕ → (Bool → List ℕ) → Bool → List ℕ
hold true xs live true = xs
hold true xs live false = live false
hold false xs live true = live true
hold false xs live false = xs

put-hold :
    (n : ℕ) (b : Bool) (xs : List ℕ) (m : MemoryCache) (c : Elastic) (live : Bool → List ℕ)
    → Lends n m xs
    → Lent n c live
    → Lent n (put b m c) (hold b xs live)
unfolding cache put
put-hold n true xs m c live h k true = h
put-hold n true xs m c live h k false = k false
put-hold n false xs m c live h k true = k true
put-hold n false xs m c live h k false = h

free_object-object_num :
    (now a : ℕ) (m : MemoryCache) → (Cache.free_object now a m).object_num ≡ m.object_num
unfolding Cache.free_object
free_object-object_num now a m = ground arith

free-Lends :
    (n now a : ℕ) (m : MemoryCache) (before after : List ℕ)
    → Lends n m (before ++ a ∷ after)
    → Lends n (Cache.free_object now a m) (before ++ after)
free-Lends n now a m [] after (inl (b, e), f) = absurd (cc)
free-Lends n now a m (x ∷ before) after (inl (b, e), f) = absurd (cc)
free-Lends n now a m before after (inr (es, h), f) = (
  inr (es ++ a ∷ [], free_object-Holds m now a es before after h),
  free_object-object_num now a m ∙ f,
)

free_runs :
    (now : ℕ) (h : Handle) (c d : Elastic)
    → prepare now c ≡ some d
    → free_object now h c ≡ some (free_handle now h d)
unfolding free_object
free_runs now h c d e = ground arith

-- FreeObject takes an object back into the cache that lent it, also after the caches were swapped,
-- and leaves the other objects lent, if CompactMemory does not divide by zero.
pub free_object-Lent :
    (n now : ℕ) (c : Elastic) (live : Bool → List ℕ) (b : Bool) (before : List ℕ) (a : ℕ)
    (after : List ℕ)
    → Lent n c live
    → ¬ DividesByZero c
    → live b ≡ before ++ a ∷ after
    → (r : Elastic) × (free_object now (b, a) c ≡ some r) × Lent n r (hold b (before ++ after) live)
unfolding free_handle
free_object-Lent n now c live b before a after k z e =
    let (d, prepared, lent) = prepare-Lent n now c live k z in
    (
      free_handle now (b, a) d,
      free_runs now (b, a) c d prepared,
      put-hold n b (before ++ after) _ d live
          (free-Lends n now a (cache b d) before after (subst (Lends n (cache b d)) e (lent b)))
          lent,
    )
