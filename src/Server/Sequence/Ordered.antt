-- ===== src/Server/Sequence/Ordered.antt =====
-- Lists in the order of their sequence numbers, without pointers.
use konsan_net.Prelude.{
  ℕ, ◌<◌, ◌≡◌, refl, sym, ap, ◌≢◌, true, false, some, List, [], ◌∷◌, ◌++◌, arith, ltb,
  if◌then◌else◌, All, get_last?, All-map, Fresh, Distinct, Bool-cases, inl, inr,
}

abbrev pub Ordered : (ℕ → ℕ) → List ℕ → Type 0
Ordered s [] = Unit
Ordered s (x ∷ xs) = All (λ y. s x < s y) xs × Ordered s xs

-- A sequence number that the list does not have yet.
abbrev pub New : (ℕ → ℕ) → ℕ → List ℕ → Type 0
New s b = All (λ x. s x ≢ s b)

abbrev pub insert_ordered : (ℕ → ℕ) → ℕ → List ℕ → List ℕ
insert_ordered s b [] = b ∷ []
insert_ordered s b (x ∷ xs) =
    let rest = insert_ordered s b xs in if ltb (s b) (s x) then b ∷ x ∷ xs else x ∷ rest

pub Ordered-Distinct : (s : ℕ → ℕ) (xs : List ℕ) → Ordered s xs → Distinct xs
Ordered-Distinct s [] o = tt
Ordered-Distinct s (x ∷ xs) o = (
  All-map (λ y. s x < s y) (λ y. x ≢ y) (λ y h e. let same = ap s e in omega arith) xs o.0,
  Ordered-Distinct s xs o.1,
)

pub New-Fresh : (s : ℕ → ℕ) (b : ℕ) (xs : List ℕ) → New s b xs → Fresh b xs
New-Fresh s b = All-map (λ x. s x ≢ s b) (λ x. b ≢ x) (λ x h e. h (ap s (sym e)))

-- Where the last number is below `b`, all are.
pub Ordered-below :
    (s : ℕ → ℕ) (b e : ℕ) (xs : List ℕ)
    → Ordered s xs
    → get_last? xs ≡ some e
    → s e < s b
    → All (λ x. s x < s b) xs
Ordered-below s b e [] o l h = tt
Ordered-below s b e (x ∷ []) o l h = (ground arith, tt)
Ordered-below s b e (x ∷ y ∷ ys) o l h =
    let rest = Ordered-below s b e (y ∷ ys) o.1 l h in
    let first = o.0.0 in let second = rest.0 in (omega arith, rest)

pub insert_ordered-snoc :
    (s : ℕ → ℕ) (b : ℕ) (xs : List ℕ)
    → All (λ x. s x < s b) xs
    → insert_ordered s b xs ≡ xs ++ b ∷ []
insert_ordered-snoc s b [] h = refl
insert_ordered-snoc s b (x ∷ xs) h = ground (arith, insert_ordered-snoc s b xs h.1)

All-insert_ordered :
    (P : ℕ → Type 0) (s : ℕ → ℕ) (b : ℕ) (xs : List ℕ)
    → P b
    → All P xs
    → All P (insert_ordered s b xs)
All-insert_ordered P s b [] p h = (p, tt)
All-insert_ordered P s b (x ∷ xs) p h =
    elim (ltb (s b) (s x)) as (λ t. All P (if t then b ∷ x ∷ xs else x ∷ insert_ordered s b xs)) [
      | true ↦ (p, h)
      | false ↦ (h.0, All-insert_ordered P s b xs p h.1)
    ]

pub insert_ordered-Ordered :
    (s : ℕ → ℕ) (b : ℕ) (xs : List ℕ)
    → Ordered s xs
    → New s b xs
    → Ordered s (insert_ordered s b xs)
insert_ordered-Ordered s b [] o n = (tt, tt)
insert_ordered-Ordered s b (x ∷ xs) o n = elim (Bool-cases (ltb (s b) (s x))) [
  | inl e ↦
      let less : s b < s x = ground arith in
      rw e ((less, All-map (λ y. s x < s y) (λ y. s b < s y) (λ y h. omega arith) xs o.0), o)
  | inr e ↦
      let differ = n.0 in
      let more : s x < s b = ground arith in
      rw e
        (All-insert_ordered (λ y. s x < s y) s b xs more o.0, insert_ordered-Ordered s b xs o.1 n.1)
]

get_last?-tail : (x e : ℕ) (zs : List ℕ) → get_last? zs ≡ some e → get_last? (x ∷ zs) ≡ some e
get_last?-tail x e [] h = absurd (cc)
get_last?-tail x e (z ∷ zs) h = h

pub insert_ordered-last :
    (s : ℕ → ℕ) (b e : ℕ) (xs : List ℕ)
    → get_last? xs ≡ some e
    → s b < s e
    → get_last? (insert_ordered s b xs) ≡ some e
insert_ordered-last s b e [] l h = absurd (cc)
insert_ordered-last s b e (x ∷ []) l h = ground arith
insert_ordered-last s b e (x ∷ y ∷ ys) l h = elim (Bool-cases (ltb (s b) (s x))) [
  | inl q ↦ rw q l
  | inr q ↦
      rw q
        (get_last?-tail x e (insert_ordered s b (y ∷ ys)) (insert_ordered-last s b e (y ∷ ys) l h))
]
