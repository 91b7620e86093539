-- ===== src/Container/QueueData/Unlink.antt =====
-- The links that PopFront and FreeNode write.
use konsan_net.Prelude.{
  ℕ, ◌+◌, ◌*◌, ◌<◌, ◌≤◌, ◌^◌, ◌≡◌, ◌≢◌, refl, ◌∙◌, sym, true, none, some, List, [], ◌∷◌, ◌++◌,
  append_assoc, arith, All, Fresh, Distinct, get_last?, length, length-append, All-append,
  All-append_left, All-append_right, All-get_last?, get_last?-cons, Distinct-get_last?,
  get_last?-snoc, Distinct-snoc, Distinct-append_left, Distinct-append_right,
}
use konsan_net.Chain.{Chain, set_at, Chain-join, Chain-set_at, set_at_self}
use konsan_net.Container.QueueData.{QueueData, unlink_first, free_node, pop_front}
use konsan_net.Container.QueueData.Invariant.{EndsAt, Holds}

pub head_eq : {x y : ℕ} {xs ys : List ℕ} → (x ∷ xs) ≡ y ∷ ys → x ≡ y
head_eq e = cc

pub tail_eq : {x y : ℕ} {xs ys : List ℕ} → (x ∷ xs) ≡ y ∷ ys → xs ≡ ys
tail_eq e = cc

-- The state once the first node is out of the list.
pub record Unlinked (q : QueueData) (us : List ℕ) (a : ℕ) (es : List ℕ) : Type 0 where
  using_chain : Chain q.next q.list_head us
  using_end : q.list_end ≡ get_last? us
  empty_chain : Chain q.next q.empty_list_head es
  empty_end : EndsAt es q.empty_list_end
  apart : Distinct (a ∷ us ++ es)
  inside : All (λ x. x < q.allocated) (a ∷ us ++ es)
  using_count : q.number_of_using_nodes ≡ length us
  empty_count : q.number_of_empty_nodes ≡ length es
  room : 2 ≤ q.init_size
  small : 24 * q.init_size + 16 < 2 ^ 31
  bounded : length us + length es + 1 < 2 ^ 31

pub unlink_first-Unlinked :
    (q : QueueData) (a : ℕ) (us es : List ℕ)
    → Holds q (a ∷ us) es
    → Unlinked (unlink_first a q) us a es
unfolding unlink_first
unlink_first-Unlinked q a [] es h =
    rw (h.using_chain.1, unlink_first)
      (record {
        using_chain = refl;
        using_end = refl;
        empty_chain = h.empty_chain;
        empty_end = h.empty_end;
        apart = h.apart;
        inside = h.inside;
        using_count = omega (arith, h.using_count);
        empty_count = h.empty_count;
        room = h.room;
        small = h.small;
        bounded = omega (arith, h.bounded);
      })
unlink_first-Unlinked q a (u ∷ us) es h =
    rw (h.using_chain.1.0, unlink_first)
      (record {
        using_chain = (refl, h.using_chain.1.1);
        using_end = h.using_end;
        empty_chain = h.empty_chain;
        empty_end = h.empty_end;
        apart = h.apart;
        inside = h.inside;
        using_count = omega (arith, h.using_count, h.bounded);
        empty_count = h.empty_count;
        room = h.room;
        small = h.small;
        bounded = omega (arith, h.bounded);
      })

-- The lists with node `a` at the end.
freed_lists :
    (P : ℕ → Type 0) (us : List ℕ) (a : ℕ) (es : List ℕ)
    → Distinct (a ∷ us ++ es)
    → All P (a ∷ us ++ es)
    → Distinct (us ++ (es ++ a ∷ [])) × All P (us ++ (es ++ a ∷ []))
freed_lists P us a es d p = (
  rw (← append_assoc us es (a ∷ [])) (Distinct-snoc (us ++ es) a d.0 d.1),
  rw (← append_assoc us es (a ∷ [])) (All-append P (us ++ es) (a ∷ []) p.1 (p.0, tt)),
)

EndsAt-snoc : (es : List ℕ) (a : ℕ) → EndsAt (es ++ a ∷ []) (some a)
EndsAt-snoc [] a = refl
EndsAt-snoc (x ∷ es) a = sym (get_last?-snoc (x ∷ es) a)

-- Where an empty node is left, the freed one is linked behind it.
pub free_node-Holds :
    (q : QueueData) (us : List ℕ) (a y : ℕ) (ys : List ℕ)
    → q.inited ≡ true
    → Unlinked q us a (y ∷ ys)
    → Holds (free_node a q) us ((y ∷ ys) ++ a ∷ [])
unfolding free_node
free_node-Holds q us a y ys i t =
    let (e, last) = get_last?-cons y ys in
    let es = y ∷ ys in
    let cleared = set_at q.next a none in
    let lists = freed_lists (λ x. x < q.allocated) us a es t.apart t.inside in
    let off_e : Fresh e us = Distinct-get_last? us es e t.apart.1 last in
    let e-ne : a ≢ e = All-get_last? (λ x. a ≢ x) es e (All-append_right _ us es t.apart.0) last in
    let counted = length-append es (a ∷ []) in
    rw (i, free_node)
      (rw (t.empty_end ∙ last, free_node)
        (record {
          using_chain = Chain-set_at cleared e (some a) q.list_head us off_e (
              Chain-set_at q.next a none q.list_head us (All-append_left _ us es t.apart.0)
                t.using_chain);
          using_end = t.using_end;
          empty_chain =
              Chain-join cleared q.empty_list_head es e a (a ∷ []) last
                (Distinct-append_right us es t.apart.1) ((λ p. e-ne (sym p)), tt)
                (Chain-set_at q.next a none q.empty_list_head es
                  (All-append_right _ us es t.apart.0) t.empty_chain)
                (refl, set_at_self q.next a none);
          empty_end = EndsAt-snoc es a;
          apart = lists.0;
          inside = lists.1;
          using_count = t.using_count;
          empty_count = omega (arith, t.empty_count, counted, t.bounded);
          room = t.room;
          small = t.small;
          bounded = omega (arith, t.bounded, counted);
        }))

-- Where the last empty node was taken, the end pointer names a node in use, and the freed node is
-- linked behind that.
pub free_node_after_last :
    (q : QueueData) (us : List ℕ) (a l : ℕ)
    → q.inited ≡ true
    → Unlinked q us a []
    → q.empty_list_end ≡ some l
    → get_last? us ≡ some l
    → Chain (free_node a q).next (free_node a q).list_head (us ++ a ∷ [])
unfolding free_node
free_node_after_last q us a l i t stale last =
    let cleared = set_at q.next a none in
    let off : Fresh a us = All-append_left _ us [] t.apart.0 in
    let l-ne : a ≢ l = All-get_last? (λ x. a ≢ x) us l off last in
    rw (i, free_node)
      (rw (stale, free_node)
        (Chain-join cleared q.list_head us l a (a ∷ []) last (Distinct-append_left us [] t.apart.1)
          ((λ p. l-ne (sym p)), tt) (Chain-set_at q.next a none q.list_head us off t.using_chain)
          (refl, set_at_self q.next a none)))

free_node_value : (a : ℕ) (q : QueueData) → (free_node a q).value ≡ q.value
unfolding free_node
free_node_value a q = ground arith

pub free_node_inited : (a : ℕ) (q : QueueData) → (free_node a q).inited ≡ q.inited
unfolding free_node
free_node_inited a q = ground arith

pub unlink_first_same :
    (a : ℕ) (q : QueueData)
    → let r = unlink_first a q in
      (r.value ≡ q.value) × (r.inited ≡ q.inited) × (r.empty_list_end ≡ q.empty_list_end)
unfolding unlink_first
unlink_first_same a q = (ground arith, ground arith, ground arith)

pub pop_front-some :
    (q : QueueData) (a : ℕ)
    → q.list_head ≡ some a
    → pop_front q ≡ (q.value a, free_node a (unlink_first a q))
unfolding pop_front
pop_front-some q a e = ground arith

pub pop_value : (q : QueueData) (a : ℕ) → (free_node a (unlink_first a q)).value ≡ q.value
pop_value q a = free_node_value a (unlink_first a q) ∙ (unlink_first_same a q).0
