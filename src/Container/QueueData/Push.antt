-- ===== src/Container/QueueData/Push.antt =====
-- CXQueueData::Push on a pool that holds the data `xs`: the new one goes to the end.
use konsan_net.Prelude.{
  ℕ, suc, ◌+◌, ◌-◌, ◌<◌, ◌≤◌, ◌^◌, ◌≡◌, ap, ◌∙◌, subst, Bool, true, false, none, some, List, [],
  ◌∷◌, ◌++◌, map, arith, Fresh, length, All-append_left, length-map, Distinct-middle,
}
use konsan_net.Chain.{span, length-span}
use konsan_net.Container.QueueData.{
  QueueData, take_node, get_node, link_last, push_inited, push, allocate_memory_block,
}
use konsan_net.Container.QueueData.Invariant.{Holds, Represents, Represents-cast}
use konsan_net.Container.QueueData.Allocating.{allocate-Holds}
use konsan_net.Container.QueueData.Links.{
  take_node-Taken, link_last-Holds, link_last_value, get_node_spare, get_node_grown, push-inited,
  push_inited-some, link_last-inited, link_last-empty_list_end, take_node_value,
  push_node-Represents,
}

-- The push that takes the last empty node leaves the end of the empty list on that node.
pub push_last :
    (b : Bool) (d : ℕ) (q : QueueData) (us : List ℕ) (a : ℕ)
    → q.inited ≡ true
    → Holds q us (a ∷ [])
    → (r : QueueData) × (push b d q ≡ some (true, r))
      × (r.empty_list_end ≡ some a)
      × (r.inited ≡ true)
      × Holds r (us ++ a ∷ []) []
      × (map r.value (us ++ a ∷ []) ≡ map q.value us ++ d ∷ [])
unfolding take_node
push_last b d q us a i h =
    let off : Fresh a us = All-append_left _ us [] (Distinct-middle us a [] h.apart).0 in
    let taken = take_node_value a q us off in
    (
      link_last a d (take_node a q),
      push-inited b d q i ∙ push_inited-some b d a q _ (get_node_spare b q a i h.empty_chain.0),
      link_last-empty_list_end a d (take_node a q) ∙ h.empty_end,
      link_last-inited a d (take_node a q) ∙ taken.1 ∙ i,
      link_last-Holds (take_node a q) us a [] d (take_node-Taken q us a [] h),
      link_last_value (take_node a q) us a d off ∙ ap (λ l. l ++ d ∷ []) taken.0,
    )

push_spare :
    (b : Bool) (d : ℕ) (q : QueueData) (us es : List ℕ) (k : ℕ)
    → q.inited ≡ true
    → Holds q us es
    → length es ≡ suc k
    → (r : QueueData) × (push b d q ≡ some (true, r)) × Represents r (map q.value us ++ d ∷ []) k
push_spare b d q us [] k i h e = absurd (omega arith)
push_spare b d q us (a ∷ es) k i h e = (
  link_last a d (take_node a q),
  push-inited b d q i ∙ push_inited-some b d a q _ (get_node_spare b q a i h.empty_chain.0),
  subst (Represents _ _) (omega arith) (push_node-Represents d q us a es i h),
)

-- With a node to spare, Push appends its data, whether or not memory is left, and uses one node.
pub push_refines :
    (succeeds : Bool) (d : ℕ) (q : QueueData) (xs : List ℕ) (k : ℕ)
    → Represents q xs (suc k)
    → (r : QueueData) × (push succeeds d q ≡ some (true, r)) × Represents r (xs ++ d ∷ []) k
push_refines b d q xs k (us, es, h, i, m, n) = rw (← m) (push_spare b d q us es k i h n)

-- The push once the new block's nodes are the empty list.
push_block :
    (d : ℕ) (q r : QueueData) (us es : List ℕ)
    → q.inited ≡ true
    → q.empty_list_head ≡ none
    → allocate_memory_block true q ≡ some (true, r)
    → r.inited ≡ true
    → Holds r us es
    → 2 ≤ length es
    → (s : QueueData) × (push true d q ≡ some (true, s))
      × Represents s (map r.value us ++ d ∷ []) (length es - 1)
push_block d q r us [] i e f j h n = absurd (omega arith)
push_block d q r us (a ∷ []) i e f j h n = absurd (omega arith)
push_block d q r us (a ∷ b ∷ es) i e f j h n = (
  link_last a d (take_node a r),
  push-inited true d q i
      ∙ push_inited-some true d a q _
          (get_node_grown q r a b i e f h.empty_chain.0 h.empty_chain.1.0),
  subst (Represents _ _) (omega arith) (push_node-Represents d r us a (b ∷ es) j h),
)

-- With no node to spare, Push takes the first node of a new block.
pub push_grows :
    (d : ℕ) (q : QueueData) (xs : List ℕ)
    → Represents q xs 0
    → length xs + q.init_size < 2 ^ 31
    → (r : QueueData) × (push true d q ≡ some (true, r))
      × Represents r (xs ++ d ∷ []) (q.init_size - 1)
push_grows d q xs (us, [], h, i, m, n) b =
    let size = length-span q.allocated q.init_size in
    let many : length us + q.init_size < 2 ^ 31 =
      omega (arith, length-map q.value us, ap (length {A = ℕ}) m) in
    let (r, done, holds, value, inited) = allocate-Holds q us [] h (omega arith) in
    let (s, pushed, rep) =
      push_block d q r us (span q.allocated q.init_size) i h.empty_chain done (inited ∙ i) holds
        (omega (arith, size, h.room)) in
    (
      s,
      pushed,
      Represents-cast s _ _ _ _ (ap (λ l. l ++ d ∷ []) (value ∙ m)) (ap (λ l. l - 1) size) rep,
    )
push_grows d q xs (us, y ∷ ys, h, i, m, n) b = absurd (omega arith)

-- With no node to spare and no memory, Push changes nothing and returns false.
pub push_fails :
    (d : ℕ) (q : QueueData) (xs : List ℕ) → Represents q xs 0 → push false d q ≡ some (false, q)
unfolding push push_inited get_node allocate_memory_block
push_fails d q xs (us, [], h, i, m, n) = ground (arith, h.empty_chain)
push_fails d q xs (us, y ∷ ys, h, i, m, n) = absurd (omega arith)
