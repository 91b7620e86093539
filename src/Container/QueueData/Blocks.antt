-- ===== src/Container/QueueData/Blocks.antt =====
-- CXQueueData::AllocateMemoryBlock: a new block links up as empty nodes, and touches no other.
use konsan_net.Prelude.{
  ℕ, zero, suc, ◌+◌, ◌-◌, ◌<◌, ◌≡◌, refl, ap, ◌∙◌, sym, Option, none, some, List, [], ◌∷◌, ◌++◌,
  append_assoc, arith, All, All-map, Distinct, length, get_last?-append, All-append,
  All-append_left, All-append_right, Distinct-append,
}
use konsan_net.Chain.{
  Chain, span, Distinct-span, span_below, Chain-agree, set_at_self, set_at_ne, get_last?-span,
  below_span,
}
use konsan_net.Container.QueueData.{QueueData, link_node, link_nodes}
use konsan_net.Container.QueueData.Invariant.{EndsAt, Holds}

pub link_nodes_below :
    (k a : ℕ) (p : Option ℕ) (q : QueueData) (x : ℕ)
    → x < a
    → ((link_nodes k a p q).next x ≡ q.next x) × ((link_nodes k a p q).value x ≡ q.value x)
unfolding link_nodes link_node
link_nodes_below zero a p q x h =
    (set_at_ne q.next a _ x (λ e. omega arith), set_at_ne q.value a _ x (λ e. omega arith))
link_nodes_below (suc k) a p q x h =
    let rest =
      link_nodes_below k (suc a) (some a) (link_node a p (some (suc a)) q) x (omega arith) in
    (
      rest.0 ∙ set_at_ne q.next a _ x (λ e. omega arith),
      rest.1 ∙ set_at_ne q.value a _ x (λ e. omega arith),
    )

pub link_nodes_frame :
    (k a : ℕ) (p : Option ℕ) (q : QueueData)
    → let r = link_nodes k a p q in r ≡ record q { next = r.next; prev = r.prev; value = r.value }
unfolding link_nodes link_node
link_nodes_frame zero a p q = refl
link_nodes_frame (suc k) a p q = link_nodes_frame k (suc a) (some a) _

pub link_nodes-Chain :
    (k a : ℕ) (p : Option ℕ) (q : QueueData)
    → Chain (link_nodes k a p q).next (some a) (span a (suc k))
unfolding link_nodes link_node
link_nodes-Chain zero a p q = (refl, set_at_self q.next a none)
link_nodes-Chain (suc k) a p q =
    let after = link_node a p (some (suc a)) q in
    let first : (link_nodes k (suc a) (some a) after).next a ≡ some (suc a) =
      (link_nodes_below k (suc a) (some a) after a (omega arith)).0
      ∙ set_at_self q.next a (some (suc a)) in
    (refl, rw first (link_nodes-Chain k (suc a) (some a) after))

-- The invariant reads `next` at its own nodes only.
pub Holds-agree :
    (q : QueueData) (us es : List ℕ) (n p : ℕ → Option ℕ) (v : ℕ → ℕ)
    → All (λ x. q.next x ≡ n x) (us ++ es)
    → Holds q us es
    → Holds (record q { next = n; prev = p; value = v }) us es
Holds-agree q us es n p v a h = record {
  using_chain = Chain-agree q.next n q.list_head us (All-append_left _ us es a) h.using_chain;
  using_end = h.using_end;
  empty_chain =
      Chain-agree q.next n q.empty_list_head es (All-append_right _ us es a) h.empty_chain;
  empty_end = h.empty_end;
  apart = h.apart;
  inside = h.inside;
  using_count = h.using_count;
  empty_count = h.empty_count;
  room = h.room;
  small = h.small;
  bounded = h.bounded;
}

-- The parts of the invariant that speak of the lists alone.
pub grown_lists :
    (q : QueueData) (us es : List ℕ)
    → Holds q us es
    → let new = span q.allocated q.init_size in
      Distinct (us ++ (es ++ new)) × All (λ x. x < q.allocated + q.init_size) (us ++ (es ++ new))
grown_lists q us es h =
    let new = span q.allocated q.init_size in
    (
      rw (← append_assoc us es new)
          (Distinct-append (us ++ es) new h.apart (Distinct-span _ _) (below_span _ _ _ h.inside)),
      rw (← append_assoc us es new) (
          All-append _ (us ++ es) new
            (All-map (λ x. x < q.allocated) (λ x. x < q.allocated + q.init_size)
              (λ x p. omega arith) (us ++ es) h.inside)
            (span_below q.allocated q.init_size _ (omega arith))),
    )

pub EndsAt-span : (a n : ℕ) → 0 < n → EndsAt (span a n) (some (a + (n - 1)))
EndsAt-span a zero h = absurd (omega arith)
EndsAt-span a (suc k) h = ap some (omega arith) ∙ sym (get_last?-span a k)

pub EndsAt-append :
    (xs ys : List ℕ) (e : Option ℕ) → 0 < length ys → EndsAt ys e → EndsAt (xs ++ ys) e
EndsAt-append xs [] e n h = absurd (omega arith)
EndsAt-append [] (y ∷ ys) e n h = h
EndsAt-append (x ∷ xs) (y ∷ ys) e n h = h ∙ sym (get_last?-append (x ∷ xs) y ys)
