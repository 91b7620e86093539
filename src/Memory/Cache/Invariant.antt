-- ===== src/Memory/Cache/Invariant.antt =====
-- The invariant of CXMemoryCache: the empty list `es`, and the objects `live` that clients hold. No
-- object is handed out twice, and every object that comes back is handed out again.
use konsan_net.Prelude.{
  ℕ, zero, suc, ◌+◌, ◌-◌, ◌*◌, ◌<◌, ◌≤◌, ◌^◌, ◌≡◌, ◌≢◌, refl, ◌∙◌, sym, subst, true, Option, none,
  some, List, [], ◌∷◌, ◌++◌, append_assoc, arith, All, All-map, Fresh, Distinct, get_last?, length,
  length-append, All-append, All-append_left, All-append_right, All-get_last?, get_last?-cons,
  Distinct-append, get_last?-snoc, Distinct-middle, Distinct-append_left, Distinct-append_comm,
  add32, sub32, Distinct-insert, All-middle,
}
use konsan_net.Chain.{
  Chain, set_at, span, length-span, Distinct-span, span_below, Chain-join, Chain-set_at,
  set_at_self, set_at_ne, get_last?-span, below_span,
}
use konsan_net.Memory.Cache.{
  MemoryCache, link_objects, allocate_memory_block, take_object, free_object,
}

pub record Holds (m : MemoryCache) (es live : List ℕ) : Type 0 where
  pub chain : Chain m.next m.empty_head es
  pub ends : m.empty_end ≡ get_last? es
  pub apart : Distinct (es ++ live)
  pub inside : All (λ x. x < m.allocated) (es ++ live)
  pub using_count : m.number_of_using_nodes ≡ length live
  pub total_count : m.number_of_total_nodes ≡ length es + length live
  pub ready : m.inited ≡ true
  pub room : 2 ≤ m.object_num
  pub sized : 0 < m.object_size
  pub small : (24 + m.object_size) * m.object_num < 2 ^ 31
  pub bounded : length es + length live < 2 ^ 31

pub take_object-Holds :
    (m : MemoryCache) (a now : ℕ) (es live : List ℕ) (e : Option ℕ)
    → e ≡ get_last? es
    → Holds m (a ∷ es) live
    → Holds (take_object a e now m) es (a ∷ live)
unfolding take_object
take_object-Holds m a now es live e f h = record {
  chain = Chain-set_at m.next a none (m.next a) es (All-append_left _ es live h.apart.0) h.chain.1;
  ends = f;
  apart = Distinct-insert es a live h.apart.0 h.apart.1;
  inside =
      All-append _ es (a ∷ live) (All-append_left _ es live h.inside.1)
        (h.inside.0, All-append_right _ es live h.inside.1);
  using_count = omega (arith, h.using_count, h.bounded);
  total_count = omega (arith, h.total_count);
  ready = h.ready;
  room = h.room;
  sized = h.sized;
  small = h.small;
  bounded = omega (arith, h.bounded);
}

link_objects_below :
    (k a : ℕ) (next : ℕ → Option ℕ) (x : ℕ) → x < a → link_objects k a next x ≡ next x
unfolding link_objects
link_objects_below zero a next x h = set_at_ne next a none x (λ e. omega arith)
link_objects_below (suc k) a next x h =
    link_objects_below k (suc a) (set_at next a (some (suc a))) x (omega arith)
    ∙ set_at_ne next a (some (suc a)) x (λ e. omega arith)

link_objects-Chain :
    (k a : ℕ) (next : ℕ → Option ℕ) → Chain (link_objects k a next) (some a) (span a (suc k))
unfolding link_objects
link_objects-Chain zero a next = (refl, set_at_self next a none)
link_objects-Chain (suc k) a next =
    let after = set_at next a (some (suc a)) in
    (
      refl,
      subst (λ p. Chain (link_objects k (suc a) after) p (span (suc a) (suc k)))
          (sym (
            link_objects_below k (suc a) after a (omega arith) ∙ set_at_self next a (some (suc a))))
          (link_objects-Chain k (suc a) after),
    )

unfoldable pub grown : MemoryCache → MemoryCache
grown m = record m {
  next = link_objects (m.object_num - 1) m.allocated m.next;
  blocks = m.blocks ++ m.allocated ∷ [];
  memory_blocks_number = add32 m.memory_blocks_number 1;
  number_of_total_nodes = add32 m.number_of_total_nodes m.object_num;
  empty_head = some m.allocated;
  empty_end = some (m.allocated + (m.object_num - 1));
  allocated = m.allocated + m.object_num;
}

pub allocate_grown :
    (m : MemoryCache)
    → 2 ≤ m.object_num
    → (24 + m.object_size) * m.object_num < 2 ^ 31
    → allocate_memory_block true m ≡ some (true, grown m)
unfolding allocate_memory_block grown
allocate_grown m h k = ground arith

pub grown-Holds :
    (m : MemoryCache) (live : List ℕ)
    → Holds m [] live
    → length live + m.object_num < 2 ^ 31
    → Holds (grown m) (span m.allocated m.object_num) live
unfolding grown
grown-Holds m live h b =
    let n = m.object_num in
    let base = m.allocated in
    let size = length-span base n in
    let sized : suc (n - 1) ≡ n = omega (arith, h.room) in
    record {
      chain =
          subst (λ k. Chain (link_objects (n - 1) base m.next) (some base) (span base k)) sized
            (link_objects-Chain (n - 1) base m.next);
      ends =
          subst (λ k. some (base + (n - 1)) ≡ get_last? (span base k)) sized
            (sym (get_last?-span base (n - 1)));
      apart = Distinct-append_comm live (span base n) (
          Distinct-append live (span base n) h.apart (Distinct-span base n)
            (below_span base n live h.inside));
      inside =
          All-append (λ x. x < base + n) (span base n) live (span_below base n _ (omega arith))
            (All-map (λ x. x < base) (λ x. x < base + n) (λ x p. omega arith) live h.inside);
      using_count = h.using_count;
      total_count = omega (arith, h.total_count, size, h.bounded);
      ready = h.ready;
      room = h.room;
      sized = h.sized;
      small = h.small;
      bounded = omega (arith, size);
    }

-- The lists when object `a` goes from the live ones to the end of the empty list.
returned :
    (P : ℕ → Type 0) (es before : List ℕ) (a : ℕ) (after : List ℕ)
    → Distinct (es ++ (before ++ a ∷ after))
    → All P (es ++ (before ++ a ∷ after))
    → Fresh a (es ++ (before ++ after))
      × Distinct ((es ++ a ∷ []) ++ (before ++ after))
      × All P ((es ++ a ∷ []) ++ (before ++ after))
returned P es before a after d p =
    let regroup = append_assoc es before after in
    let mid = Distinct-middle (es ++ before) a after (rw append_assoc d) in
    let live = All-middle P before a after (All-append_right P es (before ++ a ∷ after) p) in
    let fresh : Fresh a (es ++ (before ++ after)) = subst (Fresh a) regroup mid.0 in
    (
      fresh,
      rw (append_assoc es (a ∷ []) (before ++ after))
          (Distinct-insert es a (before ++ after) fresh (subst Distinct regroup mid.1)),
      rw (append_assoc es (a ∷ []) (before ++ after)) (
          All-append P es (a ∷ before ++ after) (All-append_left P es (before ++ a ∷ after) p)
            (live.0, live.1)),
    )

-- Object `a` is the last of the empty list, whose chain is known.
given_back-Holds :
    (m : MemoryCache) (now a : ℕ) (next : ℕ → Option ℕ) (head : Option ℕ) (es before after : List ℕ)
    → Holds m es (before ++ a ∷ after)
    → Chain next head (es ++ a ∷ [])
    → Holds
        (record m {
          next = next;
          empty_head = head;
          empty_end = some a;
          number_of_using_nodes = sub32 m.number_of_using_nodes 1;
          last_used_time = now;
        })
        (es ++ a ∷ [])
        (before ++ after)
given_back-Holds m now a next head es before after h c =
    let lists = returned (λ x. x < m.allocated) es before a after h.apart h.inside in
    let counted = length-append before (a ∷ after) in
    let rest = length-append before after in
    let freed = length-append es (a ∷ []) in
    record {
      chain = c;
      ends = sym (get_last?-snoc es a);
      apart = lists.1;
      inside = lists.2;
      using_count = omega (arith, h.using_count, counted, rest, h.bounded);
      total_count = omega (arith, h.total_count, counted, rest, freed);
      ready = h.ready;
      room = h.room;
      sized = h.sized;
      small = h.small;
      bounded = omega (arith, h.bounded, counted, rest, freed);
    }

-- FreeObject of an object that a client holds puts it at the end of the empty list.
pub free_object-Holds :
    (m : MemoryCache) (now a : ℕ) (es before after : List ℕ)
    → Holds m es (before ++ a ∷ after)
    → Holds (free_object now a m) (es ++ a ∷ []) (before ++ after)
unfolding free_object
free_object-Holds m now a [] before after h =
    rw (h.ready, free_object)
      (rw (h.ends, free_object)
        (given_back-Holds m now a (set_at m.next a none) (some a) [] before after h
          (refl, set_at_self m.next a none)))
free_object-Holds m now a (y ∷ ys) before after h =
    let (e, last) = get_last?-cons y ys in
    let es = y ∷ ys in
    let live = before ++ a ∷ after in
    let cleared = set_at m.next a none in
    let off : Fresh a es =
      All-append_left _ es (before ++ after)
        (returned (λ x. x < m.allocated) es before a after h.apart h.inside).0 in
    let apart : a ≢ e = All-get_last? (λ x. a ≢ x) es e off last in
    rw (h.ready, free_object)
      (rw (h.ends ∙ last, free_object)
        (given_back-Holds m now a (set_at cleared e (some a)) m.empty_head es before after h (
          Chain-join cleared m.empty_head es e a (a ∷ []) last
            (Distinct-append_left es live h.apart) ((λ p. apart (sym p)), tt)
            (Chain-set_at m.next a none m.empty_head es off h.chain)
            (refl, set_at_self m.next a none))))
