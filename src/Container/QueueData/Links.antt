-- ===== src/Container/QueueData/Links.antt =====
-- The links that GetNode and Push write.
use konsan_net.Prelude.{
  ℕ, ◌+◌, ◌*◌, ◌<◌, ◌≤◌, ◌^◌, ◌≡◌, refl, ap, ◌∙◌, sym, Bool, true, Option, none, some, List, [],
  ◌∷◌, ◌++◌, map, append_assoc, arith, All, Fresh, Distinct, get_last?, length, length-append,
  All-append_left, All-append_right, All-get_last?, get_last?-cons, Distinct-append_left,
  Distinct-cross, get_last?-snoc, Distinct-middle,
}
use konsan_net.Chain.{
  Chain, set_at, Chain-join, Chain-set_at, set_at_self, map-set_at, map-set_at_snoc,
}
use konsan_net.Container.QueueData.{
  QueueData, take_node, get_node, link_last, push_inited, push, allocate_memory_block,
}
use konsan_net.Container.QueueData.Invariant.{EndsAt, Holds, Represents}

-- What is left of the invariant while node `a` is taken and in neither list.
pub record Taken (q : QueueData) (us : List ℕ) (a : ℕ) (es : List ℕ) : Type 0 where
  using_chain : Chain q.next q.list_head us
  using_end : q.list_end ≡ get_last? us
  empty_chain : Chain q.next q.empty_list_head es
  empty_end : EndsAt es q.empty_list_end
  fresh_end : q.next a ≡ none
  apart : Distinct (us ++ a ∷ es)
  inside : All (λ x. x < q.allocated) (us ++ a ∷ es)
  using_count : q.number_of_using_nodes ≡ length us
  empty_count : q.number_of_empty_nodes ≡ length es
  room : 2 ≤ q.init_size
  small : 24 * q.init_size + 16 < 2 ^ 31
  bounded : length us + length es + 1 < 2 ^ 31

EndsAt-tail : (a : ℕ) (es : List ℕ) (e : Option ℕ) → EndsAt (a ∷ es) e → EndsAt es e
EndsAt-tail a [] e h = tt
EndsAt-tail a (x ∷ xs) e h = h

pub take_node-Taken :
    (q : QueueData) (us : List ℕ) (a : ℕ) (es : List ℕ)
    → Holds q us (a ∷ es)
    → Taken (take_node a q) us a es
unfolding take_node
take_node-Taken q us a es h =
    let mid = Distinct-middle us a es h.apart in
    record {
      using_chain =
          Chain-set_at q.next a none q.list_head us (All-append_left _ us es mid.0) h.using_chain;
      using_end = h.using_end;
      empty_chain =
          Chain-set_at q.next a none (q.next a) es (All-append_right _ us es mid.0) h.empty_chain.1;
      empty_end = EndsAt-tail a es q.empty_list_end h.empty_end;
      fresh_end = set_at_self q.next a none;
      apart = h.apart;
      inside = h.inside;
      using_count = h.using_count;
      empty_count = omega (arith, h.empty_count, h.bounded);
      room = h.room;
      small = h.small;
      bounded = omega (arith, h.bounded);
    }

-- The parts of the invariant that speak of the lists alone.
moved_lists :
    (q : QueueData) (us : List ℕ) (a : ℕ) (es : List ℕ)
    → Taken q us a es
    → Distinct ((us ++ a ∷ []) ++ es) × All (λ x. x < q.allocated) ((us ++ a ∷ []) ++ es)
moved_lists q us a es t =
    (rw (append_assoc us (a ∷ []) es) t.apart, rw (append_assoc us (a ∷ []) es) t.inside)

pub link_last-Holds :
    (q : QueueData) (us : List ℕ) (a : ℕ) (es : List ℕ) (d : ℕ)
    → Taken q us a es
    → Holds (link_last a d q) (us ++ a ∷ []) es
unfolding link_last
link_last-Holds q [] a es d t =
    rw (t.using_end, link_last)
      (record {
        using_chain = (refl, t.fresh_end);
        using_end = refl;
        empty_chain = t.empty_chain;
        empty_end = t.empty_end;
        apart = t.apart;
        inside = t.inside;
        using_count = omega (arith, t.using_count);
        empty_count = t.empty_count;
        room = t.room;
        small = t.small;
        bounded = omega (arith, t.bounded);
      })
link_last-Holds q (u ∷ us) a es d t =
    let (e, last) = get_last?-cons u us in
    let all = u ∷ us in
    let after : Fresh e (a ∷ es) =
      All-get_last? (λ x. Fresh x (a ∷ es)) all e (Distinct-cross all (a ∷ es) t.apart) last in
    let counted = length-append all (a ∷ []) in
    rw (t.using_end ∙ last, link_last)
      (record {
        using_chain =
            Chain-join q.next q.list_head all e a (a ∷ []) last
              (Distinct-append_left all (a ∷ es) t.apart) (after.0, tt) t.using_chain
              (refl, t.fresh_end);
        using_end = sym (get_last?-snoc all a);
        empty_chain = Chain-set_at q.next e _ q.empty_list_head es after.1 t.empty_chain;
        empty_end = t.empty_end;
        apart = (moved_lists q all a es t).0;
        inside = (moved_lists q all a es t).1;
        using_count = omega (arith, t.using_count, counted, t.bounded);
        empty_count = t.empty_count;
        room = t.room;
        small = t.small;
        bounded = omega (arith, t.bounded, counted);
      })

pub link_last_value :
    (q : QueueData) (us : List ℕ) (a d : ℕ)
    → Fresh a us
    → map (link_last a d q).value (us ++ a ∷ []) ≡ map q.value us ++ d ∷ []
unfolding link_last
link_last_value q us a d h =
    let value : (link_last a d q).value ≡ set_at q.value a d = ground arith in
    rw value (map-set_at_snoc q.value a d us h)

pub get_node_spare :
    (b : Bool) (q : QueueData) (a : ℕ)
    → q.inited ≡ true
    → q.empty_list_head ≡ some a
    → get_node b q ≡ some (some a, take_node a q)
unfolding get_node
get_node_spare b q a i e = ground arith

pub get_node_grown :
    (q r : QueueData) (a h : ℕ)
    → q.inited ≡ true
    → q.empty_list_head ≡ none
    → allocate_memory_block true q ≡ some (true, r)
    → r.empty_list_head ≡ some a
    → r.next a ≡ some h
    → get_node true q ≡ some (some a, take_node a r)
unfolding get_node
get_node_grown q r a h i e f g k = ground arith

pub push-inited :
    (b : Bool) (d : ℕ) (q : QueueData) → q.inited ≡ true → push b d q ≡ push_inited b d q
unfolding push
push-inited b d q i = ground arith

pub push_inited-some :
    (b : Bool) (d a : ℕ) (q r : QueueData)
    → get_node b q ≡ some (some a, r)
    → push_inited b d q ≡ some (true, link_last a d r)
unfolding push_inited
push_inited-some b d a q r e = ground arith

pub link_last-inited : (a d : ℕ) (q : QueueData) → (link_last a d q).inited ≡ q.inited
unfolding link_last
link_last-inited a d q = ground arith

pub link_last-empty_list_end :
    (a d : ℕ) (q : QueueData) → (link_last a d q).empty_list_end ≡ q.empty_list_end
unfolding link_last
link_last-empty_list_end a d q = ground arith

pub take_node_value :
    (a : ℕ) (q : QueueData) (us : List ℕ)
    → Fresh a us
    → (map (take_node a q).value us ≡ map q.value us) × ((take_node a q).inited ≡ q.inited)
unfolding take_node
take_node_value a q us h = (map-set_at q.value a 0 us h, refl)

-- Taking node `a` and linking it last puts its data behind the others.
pub push_node-Represents :
    (d : ℕ) (q : QueueData) (us : List ℕ) (a : ℕ) (es : List ℕ)
    → q.inited ≡ true
    → Holds q us (a ∷ es)
    → Represents (link_last a d (take_node a q)) (map q.value us ++ d ∷ []) (length es)
push_node-Represents d q us a es i h =
    let off : Fresh a us = All-append_left _ us es (Distinct-middle us a es h.apart).0 in
    let taken = take_node_value a q us off in
    (
      us ++ a ∷ [],
      es,
      link_last-Holds (take_node a q) us a es d (take_node-Taken q us a es h),
      link_last-inited a d (take_node a q) ∙ taken.1 ∙ i,
      link_last_value (take_node a q) us a d off ∙ ap (λ l. l ++ d ∷ []) taken.0,
      refl,
    )
