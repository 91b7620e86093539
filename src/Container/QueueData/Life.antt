-- ===== src/Container/QueueData/Life.antt =====
-- CXQueueData::Init, Clear and Destroy: the life of a pool of nodes.
use konsan_net.Prelude.{
  ℕ, suc, ◌+◌, ◌*◌, ◌<◌, ◌≤◌, ◌^◌, ◌≡◌, refl, ap, ◌∙◌, sym, true, false, none, some, List, [], ◌∷◌,
  ◌++◌, arith, length, length-append, length-map, add32, get_last?-append, All-append,
  All-append_left, All-append_right, get_last?-cons, Distinct-get_last?, Distinct-append_right,
  Distinct-append_comm,
}
use konsan_net.Chain.{set_at, span, length-span, Chain-join}
use konsan_net.Container.QueueData.{
  QueueData, new_queue_data, init, clear, destroy, allocate_memory_block, push, pop_front,
}
use konsan_net.Container.QueueData.Invariant.{Holds, Represents}
use konsan_net.Container.QueueData.Allocating.{allocate-Holds}
use konsan_net.Container.QueueData.Push.{push_refines}

-- A pool that owns no memory: a new one, or one that was destroyed.
pub record Blank (q : QueueData) : Type 0 where
  pub no_list : q.list_head ≡ none
  pub no_end : q.list_end ≡ none
  pub no_empty : q.empty_list_head ≡ none
  pub none_using : q.number_of_using_nodes ≡ 0
  pub none_empty : q.number_of_empty_nodes ≡ 0
  pub no_blocks : q.number_of_blocks ≡ 0
  pub not_inited : q.inited ≡ false

pub new_queue_data-Blank : Blank new_queue_data
unfolding new_queue_data
new_queue_data-Blank = ground arith

Blank-Holds :
    (q : QueueData) (n : ℕ)
    → Blank q
    → 2 ≤ n
    → 24 * n + 16 < 2 ^ 31
    → Holds (record q { init_size = n }) [] []
Blank-Holds q n b l h = ground arith

init_inited :
    (n : ℕ) (q r : QueueData)
    → q.inited ≡ false
    → allocate_memory_block true (record q { init_size = n }) ≡ some (true, r)
    → init true n q ≡ some (true, record r { inited = true })
unfolding init
init_inited n q r i e = ground (arith, e)

inited-Holds :
    (q : QueueData) (us es : List ℕ) → Holds q us es → Holds (record q { inited = true }) us es
inited-Holds q us es h = ground (arith, h)

-- Init of a blank pool with a size of at least two nodes, small enough for an int, gives an empty
-- queue with that many nodes to spare.
pub init_refines :
    (n : ℕ) (q : QueueData)
    → Blank q
    → 2 ≤ n
    → 24 * n + 16 < 2 ^ 31
    → (r : QueueData) × (init true n q ≡ some (true, r)) × Represents r [] n
init_refines n q b l h =
    let start : QueueData = record q { init_size = n } in
    let (r, done, holds, value, same) =
      allocate-Holds start [] [] (Blank-Holds q n b l h) (omega arith) in
    (
      record r { inited = true },
      init_inited n q r b.not_inited done,
      ([], span q.allocated n, inited-Holds r [] _ holds, refl, refl, length-span q.allocated n),
    )

push_after_init :
    (d : ℕ) (q r : QueueData)
    → q.inited ≡ false
    → init true 10240 q ≡ some (true, r)
    → r.inited ≡ true
    → push true d q ≡ push true d r
unfolding push
push_after_init d q r i e j = ground arith

-- A push into a blank pool first takes a block of 10240 nodes.
pub push-Blank :
    (d : ℕ) (q : QueueData)
    → Blank q
    → (r : QueueData) × (push true d q ≡ some (true, r)) × Represents r (d ∷ []) 10239
push-Blank d q b =
    let (r, done, rep) = init_refines 10240 q b (omega arith) (omega arith) in
    let (s, pushed, after) = push_refines true d r [] 10239 rep in
    (s, push_after_init d q r b.not_inited done rep.3 ∙ pushed, after)

-- Destroy leaves a blank pool.
pub destroy-Blank : (q : QueueData) → q.inited ≡ true → Blank (destroy q)
unfolding destroy
destroy-Blank q i = ground arith

-- What Clear makes of a pool whose two lists are not empty: the nodes in use go behind the others.
clear-Holds :
    (q : QueueData) (u : ℕ) (us : List ℕ) (y : ℕ) (ys : List ℕ)
    → Holds q (u ∷ us) (y ∷ ys)
    → (r : QueueData) × (clear q ≡ some r) × Holds r [] ((y ∷ ys) ++ u ∷ us) × (r.inited ≡ q.inited)
unfolding clear
clear-Holds q u us y ys h =
    let (e, last) = get_last?-cons y ys in
    let all = u ∷ us in
    let es = y ∷ ys in
    let counted = length-append es all in
    (
      record q {
        empty_list_end = q.list_end;
        list_head = none;
        list_end = none;
        number_of_empty_nodes = add32 q.number_of_empty_nodes q.number_of_using_nodes;
        number_of_using_nodes = 0;
        next = set_at q.next e (some u);
        prev = set_at q.prev u (some e);
      },
      ground (arith, h.empty_chain.0, h.using_chain.0, h.empty_end ∙ last),
      record {
        using_chain = refl;
        using_end = refl;
        empty_chain =
            Chain-join q.next q.empty_list_head es e u all last
              (Distinct-append_right all es h.apart) (Distinct-get_last? all es e h.apart last)
              h.empty_chain (refl, h.using_chain.1);
        empty_end = h.using_end ∙ sym (get_last?-append es u us);
        apart = Distinct-append_comm all es h.apart;
        inside =
            All-append _ es all (All-append_right _ all es h.inside)
              (All-append_left _ all es h.inside);
        using_count = refl;
        empty_count = omega (arith, h.empty_count, h.using_count, counted, h.bounded);
        room = h.room;
        small = h.small;
        bounded = omega (arith, counted, h.bounded);
      },
      refl,
    )

-- Clear of a queue that holds data, with empty nodes left, keeps every node to spare.
pub clear_refines :
    (q : QueueData) (x : ℕ) (xs : List ℕ) (k : ℕ)
    → Represents q (x ∷ xs) (suc k)
    → (r : QueueData) × (clear q ≡ some r) × Represents r [] (suc k + length (x ∷ xs))
clear_refines q x xs k ([], es, h, i, m, n) = absurd (cc)
clear_refines q x xs k (u ∷ us, [], h, i, m, n) = absurd (omega arith)
clear_refines q x xs k (u ∷ us, y ∷ ys, h, i, m, n) =
    let (r, done, holds, same) = clear-Holds q u us y ys h in
    (
      r,
      done,
      (
        [],
        (y ∷ ys) ++ u ∷ us,
        holds,
        same ∙ i,
        refl,
        omega (
          arith,
          length-append (y ∷ ys) (u ∷ us),
          length-map q.value (u ∷ us),
          ap (length {A = ℕ}) m,
        ),
      ),
    )

-- The bug: Clear of an initialised queue that holds nothing dereferences a null pointer.
pub clear_faults : (q : QueueData) (k : ℕ) → Represents q [] (suc k) → clear q ≡ none
unfolding clear
clear_faults q k (u ∷ us, es, h, i, m, n) = absurd (cc)
clear_faults q k ([], [], h, i, m, n) = absurd (omega arith)
clear_faults q k ([], y ∷ ys, h, i, m, n) =
    let (e, last) = get_last?-cons y ys in
    ground (arith, h.empty_chain.0, h.using_chain, h.empty_end ∙ last)

-- PopFront of a blank pool returns NULL and changes nothing.
pub Blank-pop : (q : QueueData) → Blank q → pop_front q ≡ (0, q)
unfolding pop_front
Blank-pop q b = ground (arith, b.no_list)
