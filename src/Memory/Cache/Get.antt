-- ===== src/Memory/Cache/Get.antt =====
-- GetObject of CXMemoryCache, with memory left and without.
use konsan_net.Prelude.{
  ℕ, ◌+◌, ◌<◌, ◌≤◌, ◌^◌, ◌≡◌, refl, Bool, true, false, Option, none, some, ◌⊎◌, inl, inr, List, [],
  ◌∷◌, arith, Fresh, get_last?, length, All-append_right, Distinct-append_right,
}
use konsan_net.Chain.{span, length-span}
use konsan_net.Memory.Cache.{
  MemoryCache, allocate_memory_block, take_object, get_inited, get_object,
}
use konsan_net.Memory.Cache.Invariant.{Holds, take_object-Holds, grown, allocate_grown, grown-Holds}

get_listed :
    (b : Bool) (m : MemoryCache) (now a : ℕ) (es live : List ℕ)
    → Holds m (a ∷ es) live
    → (e : Option ℕ) × (get_object b now m ≡ some (some a, take_object a e now m))
      × (e ≡ get_last? es)
unfolding get_object get_inited
get_listed b m now a [] live h = (none, ground (arith, h.ready, h.chain.0, h.chain.1), refl)
get_listed b m now a (c ∷ es) live h =
    (m.empty_end, ground (arith, h.ready, h.chain.0, h.chain.1.0), h.ends)

get_grown :
    (m r : MemoryCache) (now a : ℕ)
    → m.inited ≡ true
    → m.empty_head ≡ none
    → allocate_memory_block true m ≡ some (true, r)
    → r.empty_head ≡ some a
    → get_object true now m ≡ some (some a, take_object a r.empty_end now r)
unfolding get_object get_inited
get_grown m r now a i e f g = ground arith

get_block :
    (m r : MemoryCache) (now : ℕ) (es live : List ℕ)
    → m.inited ≡ true
    → m.empty_head ≡ none
    → allocate_memory_block true m ≡ some (true, r)
    → Holds r es live
    → 2 ≤ length es
    → (a : ℕ) × (s : MemoryCache) × (get_object true now m ≡ some (some a, s))
      × (rest : List ℕ) × (es ≡ a ∷ rest)
      × Holds s rest (a ∷ live)
get_block m r now [] live i e f h n = absurd (omega arith)
get_block m r now (a ∷ []) live i e f h n = absurd (omega arith)
get_block m r now (a ∷ c ∷ es) live i e f h n = (
  a,
  take_object a r.empty_end now r,
  get_grown m r now a i e f h.chain.0,
  c ∷ es,
  refl,
  take_object-Holds r a now (c ∷ es) live r.empty_end h.ends h,
)

-- While memory lasts GetObject returns an object that no client holds, the longest free one if any
-- is free, and the client holds it from then on.
pub get_object-Holds :
    (m : MemoryCache) (now : ℕ) (es live : List ℕ)
    → Holds m es live
    → length live + m.object_num < 2 ^ 31
    → (a : ℕ) × (r : MemoryCache) × (get_object true now m ≡ some (some a, r))
      × Fresh a live
      × (rest : List ℕ) × Holds r rest (a ∷ live)
      × ((es ≡ a ∷ rest) ⊎ (es ≡ []))
get_object-Holds m now [] live h b =
    let size = length-span m.allocated m.object_num in
    let (a, r, got, rest, split, held) =
      get_block m (grown m) now (span m.allocated m.object_num) live h.ready h.chain
        (allocate_grown m h.room h.small) (grown-Holds m live h b) (omega (arith, size, h.room)) in
    (a, r, got, (Distinct-append_right rest (a ∷ live) held.apart).0, rest, held, inr refl)
get_object-Holds m now (a ∷ es) live h b =
    let (e, got, last) = get_listed true m now a es live h in
    (
      a,
      take_object a e now m,
      got,
      All-append_right _ es live h.apart.0,
      es,
      take_object-Holds m a now es live e last h,
      inl refl,
    )

-- With no free object and no memory GetObject returns NULL and changes nothing.
pub get_object_fails :
    (m : MemoryCache) (now : ℕ) (live : List ℕ)
    → Holds m [] live
    → get_object false now m ≡ some (none, m)
unfolding get_object get_inited allocate_memory_block
get_object_fails m now live h = ground (arith, h.ready, h.chain, h.small)
