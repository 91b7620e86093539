-- ===== src/Server/Sequence/Middle.antt =====
-- The loop of a push, which puts a node between two others.
use konsan_net.Prelude.{
  ℕ, zero, suc, ◌<◌, ◌≤◌, ◌≡◌, refl, sym, ◌∙◌, subst, false, Option, none, some, List, [], ◌∷◌,
  arith, ltb, get_last?, Fresh, Distinct, Bool-cases, inl, inr, length,
}
use konsan_net.Chain.{set_at, set_at_ne, set_at_self, Chain, Chain-set_at}
use konsan_net.Server.Sequence.{SequenceList, push_middle}
use konsan_net.Server.Sequence.Ordered.{Ordered, insert_ordered}

-- The list behind the two pointers.
pub record Represents (l : SequenceList) (xs : List ℕ) : Type 0 where
  pub chain : Chain l.next l.head xs
  pub ends : l.end ≡ get_last? xs
  pub ordered : Ordered l.sequence_num xs

-- What the loop leaves behind a node `p` that precedes `ys`: the chain with `b` in its place, and every
-- link but those of `b` and of the nodes from `p` on.
abbrev pub Inserted : ℕ → ℕ → List ℕ → SequenceList → SequenceList → Type 0
Inserted b p ys l r =
    Chain r.next (r.next p) (insert_ordered l.sequence_num b ys)
    × ((z : ℕ) → Fresh z (p ∷ b ∷ ys) → r.next z ≡ l.next z)

inserted_here :
    (p b y : ℕ) (ys : List ℕ) (l : SequenceList)
    → Chain l.next (l.next y) ys
    → Distinct (p ∷ y ∷ ys)
    → Fresh b (p ∷ y ∷ ys)
    → let next = set_at (set_at l.next p (some b)) b (some y) in
      Chain next (next p) (b ∷ y ∷ ys) × ((z : ℕ) → Fresh z (p ∷ b ∷ y ∷ ys) → next z ≡ l.next z)
inserted_here p b y ys l c d f =
    let linked = set_at l.next p (some b) in
    let next = set_at linked b (some y) in
    let hit_p = set_at_ne linked b (some y) p f.0 ∙ set_at_self l.next p (some b) in
    let hit_b = set_at_self linked b (some y) in
    let rest =
      Chain-set_at linked b (some y) (some y) (y ∷ ys) f.1
        (Chain-set_at l.next p (some b) (some y) (y ∷ ys) d.0 (refl, c)) in
    (
      (hit_p, subst (λ q. Chain next q (y ∷ ys)) (sym hit_b) rest),
      λ z g.
          set_at_ne linked b (some y) z (λ q. g.1.0 (sym q))
          ∙ set_at_ne l.next p (some b) z (λ q. g.0 (sym q)),
    )

pub last_behind :
    (s : ℕ → ℕ) (b e y : ℕ) (ys : List ℕ)
    → get_last? (y ∷ ys) ≡ some e
    → s b < s e
    → ltb (s b) (s y) ≡ false
    → get_last? ys ≡ some e
last_behind s b e y [] last h q = absurd (ground arith)
last_behind s b e y (z ∷ zs) last h q = last

pub push_middle-Inserted :
    (fuel p b e : ℕ) (ys : List ℕ) (l : SequenceList)
    → length ys ≤ fuel
    → Chain l.next (l.next p) ys
    → Distinct (p ∷ ys)
    → Fresh b (p ∷ ys)
    → get_last? ys ≡ some e
    → l.sequence_num b < l.sequence_num e
    → Inserted b p ys l (push_middle fuel p (l.next p) b l)
unfolding push_middle
push_middle-Inserted fuel p b e [] l k c d f last h = absurd (cc)
push_middle-Inserted zero p b e (y ∷ ys) l k c d f last h = absurd (omega arith)
push_middle-Inserted (suc fuel) p b e (y ∷ ys) l k c d f last h =
    subst (λ cur. Inserted b p (y ∷ ys) l (push_middle (suc fuel) p cur b l)) (sym c.0)
      (elim (Bool-cases (ltb (l.sequence_num b) (l.sequence_num y))) [
        | inl q ↦ rw q (inserted_here p b y ys l c.1 d f)
        | inr q ↦
            let rest =
              push_middle-Inserted fuel y b e ys l (omega arith) c.1 d.1 f.1
                (last_behind l.sequence_num b e y ys last h q) h in
            rw q (
              (rest.1 p (d.0.0, ((λ w. f.0 (sym w)), d.0.1)) ∙ c.0, rest.0),
              λ z g. rest.1 z (g.1.1.0, (g.1.0, g.1.1.1)),
            )
      ])

pub push_middle-fields :
    (fuel p b : ℕ) (cur : Option ℕ) (l : SequenceList)
    → ((push_middle fuel p cur b l).head ≡ l.head)
      × (((push_middle fuel p cur b l).end ≡ l.end)
          × ((push_middle fuel p cur b l).sequence_num ≡ l.sequence_num))
unfolding push_middle
push_middle-fields zero p b cur l = (refl, (refl, refl))
push_middle-fields (suc fuel) p b none l = (refl, (refl, refl))
push_middle-fields (suc fuel) p b (some c) l =
    elim (Bool-cases (ltb (l.sequence_num b) (l.sequence_num c))) [
      | inl q ↦ rw q (refl, (refl, refl))
      | inr q ↦ rw q (push_middle-fields fuel c b (l.next c) l)
    ]
