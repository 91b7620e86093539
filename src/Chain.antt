-- ===== src/Chain.antt =====
-- Linked lists in memory: a field of a struct is a function from addresses, and a list is the
-- chain of addresses that a head pointer reaches by `next`.
use konsan_net.Prelude.{
  ℕ, zero, suc, ◌+◌, ◌<◌, ◌≤◌, ◌≡◌, refl, sym, ◌≢◌, Option, none, some, List, [], ◌∷◌, ◌++◌, arith,
  ◌==◌, if◌then◌else◌, ap, ◌∙◌, All-map, All, Fresh, Distinct, get_last?, map, ==_refl, ==_of_ne,
  length,
}

-- One assignment to a field.
abbrev pub set_at {ℓ} : {V : Type ℓ} → (ℕ → V) → ℕ → V → ℕ → V
set_at f a v x = if a == x then v else f x

abbrev pub Chain : (ℕ → Option ℕ) → Option ℕ → List ℕ → Type 0
Chain next p [] = p ≡ none
Chain next p (x ∷ xs) = (p ≡ some x) × Chain next (next x) xs

pub Chain-agree :
    (f g : ℕ → Option ℕ) (p : Option ℕ) (xs : List ℕ)
    → All (λ x. f x ≡ g x) xs
    → Chain f p xs
    → Chain g p xs
Chain-agree f g p [] h c = c
Chain-agree f g p (x ∷ xs) h c = (c.0, rw (← h.0) (Chain-agree f g (f x) xs h.1 c.1))

pub set_at-Fresh {ℓ} :
    {V : Type ℓ} (f : ℕ → V) (a : ℕ) (v : V) (xs : List ℕ)
    → Fresh a xs
    → All (λ x. f x ≡ set_at f a v x) xs
set_at-Fresh f a v [] h = tt
set_at-Fresh f a v (x ∷ xs) h = (rw (==_of_ne a x h.0), set_at-Fresh f a v xs h.1)

pub set_at_self {ℓ} : {V : Type ℓ} (f : ℕ → V) (a : ℕ) (v : V) → set_at f a v a ≡ v
set_at_self f a v = rw (==_refl a)

pub set_at_ne {ℓ} : {V : Type ℓ} (f : ℕ → V) (a : ℕ) (v : V) (x : ℕ) → a ≢ x → set_at f a v x ≡ f x
set_at_ne f a v x h = rw (==_of_ne a x h)

pub Chain-set_at :
    (next : ℕ → Option ℕ) (a : ℕ) (v : Option ℕ) (p : Option ℕ) (xs : List ℕ)
    → Fresh a xs
    → Chain next p xs
    → Chain (set_at next a v) p xs
Chain-set_at next a v p xs h c = Chain-agree _ _ p xs (set_at-Fresh next a v xs h) c

pub last-ne : (x : ℕ) (xs : List ℕ) (l : ℕ) → Fresh x xs → get_last? xs ≡ some l → x ≢ l
last-ne x [] l h e = absurd (cc)
last-ne x (y ∷ []) l h e = λ q. h.0 (ground arith)
last-ne x (y ∷ z ∷ zs) l h e = last-ne x (z ∷ zs) l h.1 e

-- Writing the last element's `next` appends the chain that starts there.
pub Chain-join :
    (next : ℕ → Option ℕ) (p : Option ℕ) (xs : List ℕ) (l n : ℕ) (ys : List ℕ)
    → get_last? xs ≡ some l
    → Distinct xs
    → Fresh l ys
    → Chain next p xs
    → Chain next (some n) ys
    → Chain (set_at next l (some n)) p (xs ++ ys)
Chain-join next p [] l n ys e d f c k = absurd (cc)
Chain-join next p (x ∷ []) l n ys e d f c k =
    let hit : set_at next l (some n) x ≡ some n = ground arith in
    (c.0, rw hit (Chain-set_at next l (some n) (some n) ys f k))
Chain-join next p (x ∷ y ∷ xs) l n ys e d f c k =
    let miss : set_at next l (some n) x ≡ next x =
      set_at_ne next l (some n) x (λ q. last-ne x (y ∷ xs) l d.0 e (sym q)) in
    (c.0, rw miss (Chain-join next (next x) (y ∷ xs) l n ys e d.1 f c.1 k))

-- What the nodes of a chain hold is not changed by a write elsewhere.
pub map-set_at : (f : ℕ → ℕ) (a v : ℕ) (xs : List ℕ) → Fresh a xs → map (set_at f a v) xs ≡ map f xs
map-set_at f a v [] h = refl
map-set_at f a v (x ∷ xs) h = rw (set_at_ne f a v x h.0, map-set_at f a v xs h.1)

pub map-set_at_snoc :
    (f : ℕ → ℕ) (a v : ℕ) (xs : List ℕ)
    → Fresh a xs
    → map (set_at f a v) (xs ++ a ∷ []) ≡ map f xs ++ v ∷ []
map-set_at_snoc f a v [] h = rw (set_at_self f a v)
map-set_at_snoc f a v (x ∷ xs) h = rw (set_at_ne f a v x h.0, map-set_at_snoc f a v xs h.1)

-- `n` addresses from `a` on.
abbrev pub span : ℕ → ℕ → List ℕ
span a zero = []
span a (suc n) = a ∷ span (suc a) n

pub length-span : (a n : ℕ) → length (span a n) ≡ n
length-span a zero = refl
length-span a (suc n) = omega (arith, length-span (suc a) n)

pub span_above : (b a n : ℕ) → b < a → Fresh b (span a n)
span_above b a zero h = tt
span_above b a (suc n) h = ((λ e. omega arith), span_above b (suc a) n (omega arith))

pub Distinct-span : (a n : ℕ) → Distinct (span a n)
Distinct-span a zero = tt
Distinct-span a (suc n) = (span_above a (suc a) n (omega arith), Distinct-span (suc a) n)

pub span_below : (a n m : ℕ) → a + n ≤ m → All (λ x. x < m) (span a n)
span_below a zero m h = tt
span_below a (suc n) m h = (omega arith, span_below (suc a) n m (omega arith))

pub get_last?-span : (a k : ℕ) → get_last? (span a (suc k)) ≡ some (a + k)
get_last?-span a zero = ground arith
get_last?-span a (suc k) = get_last?-span (suc a) k ∙ ap some (omega arith)

pub below_span : (b n : ℕ) (xs : List ℕ) → All (λ x. x < b) xs → All (λ x. Fresh x (span b n)) xs
below_span b n = All-map (λ x. x < b) (λ x. Fresh x (span b n)) (λ x h. span_above x b n h)
