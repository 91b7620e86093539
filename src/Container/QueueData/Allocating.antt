-- ===== src/Container/QueueData/Allocating.antt =====
-- CXQueueData.cpp, AllocateMemoryBlock: a block is added behind the empty nodes.
use konsan_net.Prelude.{
  ℕ, suc, ◌+◌, ◌-◌, ◌*◌, ◌<◌, ◌≤◌, ◌^◌, ◌≡◌, refl, ap, ◌∙◌, sym, subst, true, Option, none, some,
  List, [], ◌∷◌, ◌++◌, map, arith, All, All-map, length, length-append, All-append_left,
  All-append_right, All-get_last?, get_last?-cons, Distinct-get_last?, Distinct-append_right,
}
use konsan_net.Chain.{Chain, set_at, span, length-span, span_above, Chain-join, Chain-set_at}
use konsan_net.Container.QueueData.{
  QueueData, link_nodes, buffer_size, add_block, append_block, allocate_memory_block,
}
use konsan_net.Container.QueueData.Invariant.{Holds}
use konsan_net.Container.QueueData.Blocks.{
  link_nodes_below, link_nodes_frame, link_nodes-Chain, Holds-agree, grown_lists, EndsAt-span,
  EndsAt-append,
}

-- With a fresh block, whose links make both lists chains.
add_block-Holds :
    (q : QueueData) (us es : List ℕ) (next prev : ℕ → Option ℕ) (head : Option ℕ)
    → Holds q us es
    → Chain next q.list_head us
    → Chain next head (es ++ span q.allocated q.init_size)
    → length us + length es + q.init_size < 2 ^ 31
    → Holds
        (record (add_block q.allocated q) { next = next; prev = prev; empty_list_head = head })
        us
        (es ++ span q.allocated q.init_size)
unfolding add_block
add_block-Holds q us es next prev head h u c b =
    let new = span q.allocated q.init_size in
    let size = length-span q.allocated q.init_size in
    let grown = length-append es new in
    record {
      using_chain = u;
      using_end = h.using_end;
      empty_chain = c;
      empty_end =
          EndsAt-append es new _ (omega (arith, h.room)) (EndsAt-span _ _ (omega (arith, h.room)));
      apart = (grown_lists q us es h).0;
      inside = (grown_lists q us es h).1;
      using_count = h.using_count;
      empty_count = omega (arith, h.empty_count, grown, size);
      room = h.room;
      small = h.small;
      bounded = omega (arith, grown, size);
    }

-- The queue `r` is `q` with a block of `n` empty nodes, with the same data.
abbrev Grown : QueueData → List ℕ → List ℕ → ℕ → ℕ → QueueData → Type 0
Grown q us es base n r =
    Holds r us (es ++ span base n) × (r.value ≡ q.value) × (r.inited ≡ q.inited)

-- Linking a fresh block behind the empty list.
append_block-Holds :
    (q : QueueData) (us es : List ℕ)
    → Holds q us es
    → Chain q.next (some q.allocated) (span q.allocated q.init_size)
    → length us + length es + q.init_size < 2 ^ 31
    → (r : QueueData) × (append_block q.allocated q ≡ some r)
      × Grown q us es q.allocated q.init_size r
unfolding append_block add_block
append_block-Holds q us [] h c b = (
  record (add_block q.allocated q) { empty_list_head = some q.allocated },
  rw (h.empty_chain, append_block),
  (add_block-Holds q us [] q.next q.prev (some q.allocated) h h.using_chain c b, refl, refl),
)
append_block-Holds q us (y ∷ ys) h c b =
    let (e, last) = get_last?-cons y ys in
    let es = y ∷ ys in
    let next = set_at q.next e (some q.allocated) in
    let prev = set_at q.prev q.allocated (some e) in
    let low : e < q.allocated =
      All-get_last? (λ x. x < q.allocated) es e
        (All-append_right (λ x. x < q.allocated) us es h.inside) last in
    (
      record (add_block q.allocated q) { next = next; prev = prev },
      ground (arith, h.empty_chain.0, last),
      (
        add_block-Holds q us es next prev q.empty_list_head h
            (Chain-set_at q.next e _ q.list_head us (Distinct-get_last? us es e h.apart last)
              h.using_chain)
            (Chain-join q.next q.empty_list_head es e q.allocated (span q.allocated q.init_size)
              last (Distinct-append_right us es h.apart) (span_above e _ _ low) h.empty_chain c)
            b,
        refl,
        refl,
      ),
    )

-- The same where the block's place and size are known by equations.
append_block_at :
    (q : QueueData) (us es : List ℕ) (base n : ℕ)
    → base ≡ q.allocated
    → n ≡ q.init_size
    → Holds q us es
    → Chain q.next (some base) (span base n)
    → length us + length es + n < 2 ^ 31
    → (r : QueueData) × (append_block base q ≡ some r) × Grown q us es base n r
append_block_at q us es base n e f h c b =
    rw (e, f) (append_block-Holds q us es h (rw (e, f) at c) (omega arith))

buffer_size_small : (n : ℕ) → 24 * n + 16 < 2 ^ 31 → buffer_size n ≡ 24 * n + 16
unfolding buffer_size
buffer_size_small n h = omega arith

-- A size that fits in an int, and at least two nodes, lead to the linking of the block.
allocate_small :
    (q r : QueueData)
    → 24 * q.init_size + 16 < 2 ^ 31
    → 2 ≤ q.init_size
    → append_block q.allocated (link_nodes (q.init_size - 1) q.allocated none q) ≡ some r
    → allocate_memory_block true q ≡ some (true, r)
unfolding allocate_memory_block
allocate_small q r h k e = ground (arith, buffer_size_small q.init_size h)

map-agree : (f g : ℕ → ℕ) (xs : List ℕ) → All (λ x. f x ≡ g x) xs → map f xs ≡ map g xs
map-agree f g [] h = refl
map-agree f g (x ∷ xs) h = rw (h.0, map-agree f g xs h.1)

-- A block is added whenever memory is there.
pub allocate-Holds :
    (q : QueueData) (us es : List ℕ)
    → Holds q us es
    → length us + length es + q.init_size < 2 ^ 31
    → (r : QueueData) × (allocate_memory_block true q ≡ some (true, r))
      × Holds r us (es ++ span q.allocated q.init_size)
      × (map r.value us ≡ map q.value us)
      × (r.inited ≡ q.inited)
allocate-Holds q us es h b =
    let base = q.allocated in
    let linked = link_nodes (q.init_size - 1) base none q in
    let frame = link_nodes_frame (q.init_size - 1) base none q in
    let old = link_nodes_below (q.init_size - 1) base none q in
    let same : All (λ x. q.next x ≡ linked.next x) (us ++ es) =
      All-map (λ x. x < base) (λ x. q.next x ≡ linked.next x) (λ x p. sym (old x p).0) (us ++ es)
        h.inside in
    let kept : Holds linked us es =
      rw frame (Holds-agree q us es linked.next linked.prev linked.value same h) in
    let sized : suc (q.init_size - 1) ≡ q.init_size = omega (arith, h.room) in
    let chain : Chain linked.next (some base) (span base q.init_size) =
      subst (λ n. Chain linked.next (some base) (span base n)) sized
        (link_nodes-Chain (q.init_size - 1) base none q) in
    let (r, done, (holds, value, inited)) =
      append_block_at linked us es base q.init_size (sym (ap (λ s. s.allocated) frame))
        (sym (ap (λ s. s.init_size) frame)) kept chain b in
    (
      r,
      allocate_small q r h.small h.room done,
      holds,
      rw value (
          map-agree linked.value q.value us (
            All-map (λ x. x < base) (λ x. linked.value x ≡ q.value x) (λ x p. (old x p).1) us
              (All-append_left _ us es h.inside))),
      inited ∙ ap (λ s. s.inited) frame,
    )
