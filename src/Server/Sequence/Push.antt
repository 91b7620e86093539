-- ===== src/Server/Sequence/Push.antt =====
-- A push keeps a list in the order of its sequence numbers, and its two pointers right.
use konsan_net.Prelude.{
  All-get_last?, ℕ, ◌<◌, ◌≤◌, ◌≡◌, ◌∙◌, ◌≢◌, true, false, none, some, List, [], ◌∷◌, arith, ltb,
  get_last?, get_last?-cons, Bool-cases, inl, inr, length,
}
use konsan_net.Chain.{set_at, set_at_self, Chain-set_at}
use konsan_net.Server.Sequence.{SequenceList, push_from_head, push_cleared, push_sequence}
use konsan_net.Server.Sequence.Ordered.{New, insert_ordered, New-Fresh}
use konsan_net.Server.Sequence.Middle.{Represents}
use konsan_net.Server.Sequence.FromHead.{Pushed, push_first, push_last, push_before, push_between}

push_cleared-some :
    (fuel b e : ℕ) (l : SequenceList)
    → l.end ≡ some e
    → ltb (l.sequence_num e) (l.sequence_num b) ≡ false
    → push_cleared fuel b l ≡ push_from_head fuel b l
unfolding push_cleared
push_cleared-some fuel b e l h q = ground arith

push_below :
    (fuel b e x : ℕ) (ys : List ℕ) (l : SequenceList)
    → Represents l (x ∷ ys)
    → get_last? (x ∷ ys) ≡ some e
    → ltb (l.sequence_num e) (l.sequence_num b) ≡ false
    → New l.sequence_num b (x ∷ ys)
    → length ys ≤ fuel
    → Pushed fuel b l (x ∷ ys)
push_below fuel b e x ys l h last q w k =
    let differ = All-get_last? (λ z. l.sequence_num z ≢ l.sequence_num b) (x ∷ ys) e w last in
    let below : l.sequence_num b < l.sequence_num e = ground (arith, differ) in
    let branch = push_cleared-some fuel b e l (h.ends ∙ last) q in
    elim (Bool-cases (ltb (l.sequence_num b) (l.sequence_num x))) [
      | inl p ↦
          let (r, (run, holds)) = push_before fuel b e x ys l h last p w in
          (r, (branch ∙ run, holds))
      | inr p ↦
          let (r, (run, holds)) = push_between fuel b e x ys l h last below p w k in
          (r, (branch ∙ run, holds))
    ]

push_cleared-Represents :
    (fuel b : ℕ) (xs : List ℕ) (l : SequenceList)
    → l.next b ≡ none
    → Represents l xs
    → New l.sequence_num b xs
    → length xs ≤ fuel
    → Pushed fuel b l xs
push_cleared-Represents fuel b [] l n h w k = push_first fuel b l n h
push_cleared-Represents fuel b (x ∷ ys) l n h w k =
    let (e, last) = get_last?-cons x ys in
    elim (Bool-cases (ltb (l.sequence_num e) (l.sequence_num b))) [
      | inl q ↦ push_last fuel b e x ys l n h last q w
      | inr q ↦ push_below fuel b e x ys l h last q w (omega arith)
    ]

-- PushReceivedBuffer, PushSendBuffer and PushMessage of a node with a new sequence number succeed, and
-- put it in its place: whatever order nodes arrive in, the list is in the order of their numbers. As
-- many steps of the loop as the list has nodes are enough.
pub push_sequence-Represents :
    (fuel b : ℕ) (xs : List ℕ) (l : SequenceList)
    → Represents l xs
    → New l.sequence_num b xs
    → length xs ≤ fuel
    → (r : SequenceList) × ((push_sequence fuel b l ≡ some (true, r))
        × (Represents r (insert_ordered l.sequence_num b xs) × (r.sequence_num ≡ l.sequence_num)))
unfolding push_sequence
push_sequence-Represents fuel b xs l h w k =
    push_cleared-Represents fuel b xs (record l { next = set_at l.next b none })
      (set_at_self l.next b none)
      (record {
        chain = Chain-set_at l.next b none l.head xs (New-Fresh l.sequence_num b xs w) h.chain;
        ends = h.ends;
        ordered = h.ordered;
      })
      w k
