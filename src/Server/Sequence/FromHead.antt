-- ===== src/Server/Sequence/FromHead.antt =====
-- CXConnectionObject.cpp: the branches of a push into an ordered list.
use konsan_net.Prelude.{
  ℕ, ◌<◌, ◌≤◌, ◌≡◌, refl, sym, ap, ◌∙◌, subst, ◌≢◌, true, false, none, some, List, [], ◌∷◌, arith,
  ltb, if◌then◌else◌, get_last?, get_last?-snoc, length,
}
use konsan_net.Chain.{set_at, set_at_self, Chain, Chain-set_at, Chain-join}
use konsan_net.Server.Sequence.{
  SequenceList, push_middle, push_end, push_head, push_from_head, push_cleared,
}
use konsan_net.Server.Sequence.Ordered.{
  Ordered, New, insert_ordered, Ordered-Distinct, New-Fresh, Ordered-below, insert_ordered-snoc,
  insert_ordered-Ordered, insert_ordered-last,
}
use konsan_net.Server.Sequence.Middle.{
  Represents, last_behind, push_middle-Inserted, push_middle-fields,
}

-- What a push of `b` does to a list that stands for `xs`, once the link of `b` is cleared.
abbrev pub Pushed : ℕ → ℕ → SequenceList → List ℕ → Type 0
Pushed fuel b l xs =
    (r : SequenceList) × ((push_cleared fuel b l ≡ some (true, r))
      × (Represents r (insert_ordered l.sequence_num b xs) × (r.sequence_num ≡ l.sequence_num)))

pub push_first :
    (fuel b : ℕ) (l : SequenceList) → l.next b ≡ none → Represents l [] → Pushed fuel b l []
unfolding push_cleared
push_first fuel b l n h = (
  record l { head = some b; end = some b },
  (
    rw (h.ends, push_cleared) (rw h.chain refl),
    (record { chain = (refl, n); ends = refl; ordered = (tt, tt) }, refl),
  ),
)

pub push_last :
    (fuel b e x : ℕ) (ys : List ℕ) (l : SequenceList)
    → l.next b ≡ none
    → Represents l (x ∷ ys)
    → get_last? (x ∷ ys) ≡ some e
    → ltb (l.sequence_num e) (l.sequence_num b) ≡ true
    → New l.sequence_num b (x ∷ ys)
    → Pushed fuel b l (x ∷ ys)
unfolding push_cleared push_end
push_last fuel b e x ys l n h last q w =
    let s = l.sequence_num in
    let apart = Ordered-Distinct s (x ∷ ys) h.ordered in
    let below : s e < s b = ground arith in
    let lower = Ordered-below s b e (x ∷ ys) h.ordered last below in
    let order = insert_ordered-snoc s b (x ∷ ys) lower in
    let differ : e ≢ b = (λ v. let same = ap s v in omega arith) in
    let chain =
      Chain-join l.next l.head (x ∷ ys) e b (b ∷ []) last apart (differ, tt) h.chain (refl, n) in
    (
      record l { next = set_at l.next e (some b); end = some b },
      (
        rw (h.ends ∙ last, push_cleared) (rw q (rw (h.chain.0, push_end) refl)),
        (
          record {
            chain = subst (λ zs. Chain (set_at l.next e (some b)) l.head zs) (sym order) chain;
            ends = sym (ap get_last? order ∙ get_last?-snoc (x ∷ ys) b);
            ordered = insert_ordered-Ordered s b (x ∷ ys) h.ordered w;
          },
          refl,
        ),
      ),
    )

-- The branches of a push whose number is below that of the last node.
abbrev FromHead : ℕ → ℕ → SequenceList → List ℕ → Type 0
FromHead fuel b l xs =
    (r : SequenceList) × ((push_from_head fuel b l ≡ some (true, r))
      × (Represents r (insert_ordered l.sequence_num b xs) × (r.sequence_num ≡ l.sequence_num)))

push_from_head-some :
    (fuel b x : ℕ) (l : SequenceList)
    → l.head ≡ some x
    → push_from_head fuel b l ≡ (
        if ltb (l.sequence_num b) (l.sequence_num x)
        then some (push_head b l)
        else some (true, push_middle fuel x (l.next x) b l))
unfolding push_from_head
push_from_head-some fuel b x l e = ground arith

push_head-some :
    (b e : ℕ) (l : SequenceList)
    → l.end ≡ some e
    → push_head b l ≡ (true, record l { next = set_at l.next b l.head; head = some b })
unfolding push_head
push_head-some b e l h = ground arith

pub push_before :
    (fuel b e x : ℕ) (ys : List ℕ) (l : SequenceList)
    → Represents l (x ∷ ys)
    → get_last? (x ∷ ys) ≡ some e
    → ltb (l.sequence_num b) (l.sequence_num x) ≡ true
    → New l.sequence_num b (x ∷ ys)
    → FromHead fuel b l (x ∷ ys)
push_before fuel b e x ys l h last q w =
    let s = l.sequence_num in
    let next = set_at l.next b l.head in
    let order : insert_ordered s b (x ∷ ys) ≡ b ∷ x ∷ ys = rw q refl in
    let chain = Chain-set_at l.next b l.head l.head (x ∷ ys) (New-Fresh s b (x ∷ ys) w) h.chain in
    (
      record l { next = next; head = some b },
      (
        push_from_head-some fuel b x l h.chain.0
            ∙ (rw q refl ∙ ap some (push_head-some b e l (h.ends ∙ last))),
        (
          record {
            chain = subst (Chain next (some b)) (sym order) (
              refl,
              subst (λ v. Chain next v (x ∷ ys)) (sym (set_at_self l.next b l.head)) chain,
            );
            ends = h.ends ∙ ap get_last? (sym order);
            ordered = insert_ordered-Ordered s b (x ∷ ys) h.ordered w;
          },
          refl,
        ),
      ),
    )

pub push_between :
    (fuel b e x : ℕ) (ys : List ℕ) (l : SequenceList)
    → Represents l (x ∷ ys)
    → get_last? (x ∷ ys) ≡ some e
    → l.sequence_num b < l.sequence_num e
    → ltb (l.sequence_num b) (l.sequence_num x) ≡ false
    → New l.sequence_num b (x ∷ ys)
    → length ys ≤ fuel
    → FromHead fuel b l (x ∷ ys)
push_between fuel b e x ys l h last below q w k =
    let s = l.sequence_num in
    let r = push_middle fuel x (l.next x) b l in
    let (head, (end, numbers)) = push_middle-fields fuel x b (l.next x) l in
    let order : insert_ordered s b (x ∷ ys) ≡ x ∷ insert_ordered s b ys = rw q refl in
    let (chain, kept) =
      push_middle-Inserted fuel x b e ys l k h.chain.1 (Ordered-Distinct s (x ∷ ys) h.ordered)
        (New-Fresh s b (x ∷ ys) w) (last_behind s b e x ys last below q) below in
    (
      r,
      (
        push_from_head-some fuel b x l h.chain.0 ∙ rw q refl,
        (
          record {
            chain = subst (Chain r.next r.head) (sym order) (head ∙ h.chain.0, chain);
            ends = end ∙ (h.ends ∙ (last ∙ sym (insert_ordered-last s b e (x ∷ ys) last below)));
            ordered =
                subst (λ t. Ordered t (insert_ordered s b (x ∷ ys))) (sym numbers)
                  (insert_ordered-Ordered s b (x ∷ ys) h.ordered w);
          },
          numbers,
        ),
      ),
    )
