-- ===== src/Container/QueueData/Pop.antt =====
-- CXQueueData::PopFront: it serves the first data, as long as an empty node was left; after the last
-- empty node was taken it links the popped node behind the nodes in use.
use konsan_net.Prelude.{
  ℕ, suc, ◌≡◌, ap, ◌∙◌, Bool, true, some, List, [], ◌∷◌, ◌++◌, map, map-append, append_assoc, arith,
  get_last?, length-append, get_last?-snoc,
}
use konsan_net.Chain.{Chain}
use konsan_net.Container.QueueData.{QueueData, unlink_first, free_node, push, pop_front, front}
use konsan_net.Container.QueueData.Push.{push_last}
use konsan_net.Container.QueueData.Invariant.{Holds, Represents}
use konsan_net.Container.QueueData.Unlink.{
  head_eq, tail_eq, unlink_first-Unlinked, free_node-Holds, free_node_after_last, free_node_inited,
  unlink_first_same, pop_front-some, pop_value,
}

-- With an empty node left, PopFront serves the first data and the others stay in their order.
pub pop_front_refines :
    (q : QueueData) (x : ℕ) (xs : List ℕ) (k : ℕ)
    → Represents q (x ∷ xs) (suc k)
    → (r : QueueData) × (pop_front q ≡ (x, r)) × Represents r xs (suc (suc k))
pop_front_refines q x xs k ([], es, h, i, m, n) = absurd (cc)
pop_front_refines q x xs k (a ∷ us, [], h, i, m, n) = absurd (omega arith)
pop_front_refines q x xs k (a ∷ us, y ∷ ys, h, i, m, n) =
    let s = unlink_first a q in
    let same = unlink_first_same a q in
    (
      free_node a s,
      pop_front-some q a h.using_chain.0 ∙ ap (λ v. (v, free_node a s)) (head_eq m),
      (
        us,
        (y ∷ ys) ++ a ∷ [],
        free_node-Holds s us a y ys (same.1 ∙ i) (unlink_first-Unlinked q a us (y ∷ ys) h),
        free_node_inited a s ∙ same.1 ∙ i,
        ap (λ v. map v us) (pop_value q a) ∙ tail_eq m,
        omega (arith, length-append (y ∷ ys) (a ∷ [])),
      ),
    )

-- On an empty list PopFront returns NULL and changes nothing.
pub pop_front_empty : (q : QueueData) (k : ℕ) → Represents q [] k → pop_front q ≡ (0, q)
unfolding pop_front
pop_front_empty q k ([], es, h, i, m, n) = ground (arith, h.using_chain)
pop_front_empty q k (a ∷ us, es, h, i, m, n) = absurd (cc)

-- The pop that follows the push of the last empty node `a`.
pop_stale :
    (q : QueueData) (x a : ℕ) (us : List ℕ) (u : ℕ)
    → q.inited ≡ true
    → Holds q (u ∷ us) []
    → q.value u ≡ x
    → q.empty_list_end ≡ some a
    → get_last? us ≡ some a
    → let s = (pop_front q).1 in
      ((pop_front q).0 ≡ x)
      × Chain s.next s.list_head (us ++ u ∷ [])
      × (map s.value (us ++ u ∷ []) ≡ map q.value us ++ x ∷ [])
pop_stale q x a us u i h v stale last =
    let s = unlink_first u q in
    let same = unlink_first_same u q in
    rw (pop_front-some q u h.using_chain.0) (
      v,
      free_node_after_last s us u a (same.1 ∙ i) (unlink_first-Unlinked q u us [] h)
          (same.2 ∙ stale) last,
      ap (λ f. map f (us ++ u ∷ [])) (pop_value q u)
          ∙ map-append q.value us (u ∷ [])
          ∙ ap (λ w. map q.value us ++ w ∷ []) v,
    )

-- The bug: where a push takes the last empty node of a pool that holds `x ∷ xs`, the next PopFront
-- serves `x` and leaves it in the list too, behind the new data `d`.
pub pop_front_serves_twice :
    (succeeds : Bool) (d x : ℕ) (q : QueueData) (xs : List ℕ)
    → Represents q (x ∷ xs) 1
    → (r : QueueData) × (s : QueueData) × (us : List ℕ) × (push succeeds d q ≡ some (true, r))
      × (pop_front r ≡ (x, s))
      × Chain s.next s.list_head us
      × (map s.value us ≡ xs ++ d ∷ x ∷ [])
pop_front_serves_twice b d x q xs ([], es, h, i, m, n) = absurd (cc)
pop_front_serves_twice b d x q xs (u ∷ us, [], h, i, m, n) = absurd (omega arith)
pop_front_serves_twice b d x q xs (u ∷ us, a ∷ c ∷ es, h, i, m, n) = absurd (omega arith)
pop_front_serves_twice b d x q xs (u ∷ us, a ∷ [], h, i, m, n) =
    let (r, pushed, stale, inited, holds, values) = push_last b d q (u ∷ us) a i h in
    let (served, chain, rest) =
      pop_stale r x a (us ++ a ∷ []) u inited holds (head_eq (values ∙ ap (λ l. l ++ d ∷ []) m))
        stale (get_last?-snoc us a) in
    (
      r,
      (pop_front r).1,
      (us ++ a ∷ []) ++ u ∷ [],
      pushed,
      ap (λ v. (v, (pop_front r).1)) served,
      chain,
      rest
          ∙ ap (λ l. l ++ x ∷ []) (tail_eq values ∙ ap (λ l. l ++ d ∷ []) (tail_eq m))
          ∙ append_assoc xs (d ∷ []) (x ∷ []),
    )

-- Front reads the first data, and NULL where there is none.
pub front_refines :
    (q : QueueData) (xs : List ℕ) (k : ℕ)
    → Represents q xs k
    → front q ≡ (elim xs [ [] ↦ 0 | x ∷ _ ↦ x ])
unfolding front
front_refines q [] k ([], es, h, i, m, n) = ground (arith, h.using_chain)
front_refines q (x ∷ xs) k ([], es, h, i, m, n) = absurd (cc)
front_refines q [] k (u ∷ us, es, h, i, m, n) = absurd (cc)
front_refines q (x ∷ xs) k (u ∷ us, es, h, i, m, n) = ground (arith, h.using_chain.0, head_eq m)
