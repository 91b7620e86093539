-- ===== src/Prelude/Lists.antt =====
-- Lists measured by native numbers, and lists of addresses or keys.
use Prim.Native.Nat.{ℕ, zero, suc, ◌+◌}
use mathlib.Core.Path.{◌≡◌, refl, ap, subst}
use mathlib.Core.Logic.{◌≢◌}
use mathlib.Core.Option.{Option, none, some}
use mathlib.Core.List.{List, [], ◌∷◌, ◌++◌, map}
use native.Mathlib.Omega.{arith}

module _ {ℓ} {A : Type ℓ} where
  abbrev pub length : List A → ℕ
  length [] = 0
  length (x ∷ xs) = suc (length xs)

  pub length-append : (xs ys : List A) → length (xs ++ ys) ≡ length xs + length ys
  length-append [] ys = omega arith
  length-append (x ∷ xs) ys = omega (arith, length-append xs ys)

  abbrev pub get_elem? : List A → ℕ → Option A
  get_elem? [] i = none
  get_elem? (x ∷ xs) zero = some x
  get_elem? (x ∷ xs) (suc i) = get_elem? xs i

  -- A write out of bounds changes nothing.
  abbrev pub set : List A → ℕ → A → List A
  set [] i v = []
  set (x ∷ xs) zero v = v ∷ xs
  set (x ∷ xs) (suc i) v = x ∷ set xs i v

  abbrev pub replicate : ℕ → A → List A
  replicate zero a = []
  replicate (suc n) a = a ∷ replicate n a

  -- The last element of a list, which a tail pointer names.
  abbrev pub get_last? : List A → Option A
  get_last? [] = none
  get_last? (x ∷ []) = some x
  get_last? (x ∷ y ∷ ys) = get_last? (y ∷ ys)

  abbrev pub All {κ} : (A → Type κ) → List A → Type κ
  All P [] = Unit
  All P (x ∷ xs) = P x × All P xs

module _ {ℓ} {A : Type ℓ} where
  pub get_last?-snoc : (xs : List A) (x : A) → get_last? (xs ++ x ∷ []) ≡ some x
  get_last?-snoc [] x = refl
  get_last?-snoc (y ∷ []) x = refl
  get_last?-snoc (y ∷ z ∷ zs) x = get_last?-snoc (z ∷ zs) x

  pub get_last?-append :
      (xs : List A) (y : A) (ys : List A) → get_last? (xs ++ y ∷ ys) ≡ get_last? (y ∷ ys)
  get_last?-append [] y ys = refl
  get_last?-append (x ∷ []) y ys = refl
  get_last?-append (x ∷ z ∷ zs) y ys = get_last?-append (z ∷ zs) y ys

  pub All-append {κ} : (P : A → Type κ) (xs ys : List A) → All P xs → All P ys → All P (xs ++ ys)
  All-append P [] ys h k = k
  All-append P (x ∷ xs) ys h k = (h.0, All-append P xs ys h.1 k)

module _ {ℓ κ} {A : Type ℓ} (P : A → Type κ) where
  pub All-append_left : (xs ys : List A) → All P (xs ++ ys) → All P xs
  All-append_left [] ys h = tt
  All-append_left (x ∷ xs) ys h = (h.0, All-append_left xs ys h.1)

  pub All-append_right : (xs ys : List A) → All P (xs ++ ys) → All P ys
  All-append_right [] ys h = h
  All-append_right (x ∷ xs) ys h = All-append_right xs ys h.1

  pub All-get_last? : (xs : List A) (l : A) → All P xs → get_last? xs ≡ some l → P l
  All-get_last? [] l h e = absurd (cc)
  All-get_last? (x ∷ []) l h e = subst P (cc) h.0
  All-get_last? (x ∷ y ∷ ys) l h e = All-get_last? (y ∷ ys) l h.1 e

pub All-map {ℓ κ μ} :
    {A : Type ℓ} (P : A → Type κ) (Q : A → Type μ) (f : (a : A) → P a → Q a) (xs : List A)
    → All P xs
    → All Q xs
All-map P Q f [] h = tt
All-map P Q f (x ∷ xs) h = (f x h.0, All-map P Q f xs h.1)

pub get_last?-cons {ℓ} :
    {A : Type ℓ} (x : A) (xs : List A) → (l : A) × (get_last? (x ∷ xs) ≡ some l)
get_last?-cons x [] = (x, refl)
get_last?-cons x (y ∷ ys) = get_last?-cons y ys

pub length-map {ℓ κ} :
    {A : Type ℓ} {B : Type κ} (f : A → B) (xs : List A) → length (map f xs) ≡ length xs
length-map f [] = refl
length-map f (x ∷ xs) = ap suc (length-map f xs)

-- `a` is none of the listed numbers.
abbrev pub Fresh : ℕ → List ℕ → Type 0
Fresh a = All (λ x. a ≢ x)

abbrev pub Distinct : List ℕ → Type 0
Distinct [] = Unit
Distinct (x ∷ xs) = Fresh x xs × Distinct xs

pub Fresh-append_left : (a : ℕ) (xs ys : List ℕ) → Fresh a (xs ++ ys) → Fresh a xs
Fresh-append_left a [] ys h = tt
Fresh-append_left a (x ∷ xs) ys h = (h.0, Fresh-append_left a xs ys h.1)

pub Fresh-append_right : (a : ℕ) (xs ys : List ℕ) → Fresh a (xs ++ ys) → Fresh a ys
Fresh-append_right a [] ys h = h
Fresh-append_right a (x ∷ xs) ys h = Fresh-append_right a xs ys h.1

pub Distinct-append_left : (xs ys : List ℕ) → Distinct (xs ++ ys) → Distinct xs
Distinct-append_left [] ys h = tt
Distinct-append_left (x ∷ xs) ys h = (Fresh-append_left x xs ys h.0, Distinct-append_left xs ys h.1)

pub Distinct-append_right : (xs ys : List ℕ) → Distinct (xs ++ ys) → Distinct ys
Distinct-append_right [] ys h = h
Distinct-append_right (x ∷ xs) ys h = Distinct-append_right xs ys h.1

pub Distinct-snoc : (xs : List ℕ) (a : ℕ) → Fresh a xs → Distinct xs → Distinct (xs ++ a ∷ [])
Distinct-snoc [] a f d = (tt, tt)
Distinct-snoc (x ∷ xs) a f d =
    (All-append _ xs (a ∷ []) d.0 ((λ e. f.0 (omega arith)), tt), Distinct-snoc xs a f.1 d.1)

-- An element from the middle may be taken to the front.
pub Distinct-middle :
    (xs : List ℕ) (a : ℕ) (ys : List ℕ)
    → Distinct (xs ++ a ∷ ys)
    → Fresh a (xs ++ ys) × Distinct (xs ++ ys)
Distinct-middle [] a ys d = d
Distinct-middle (x ∷ xs) a ys d =
    let rest = Distinct-middle xs a ys d.1 in
    let apart = Fresh-append_right x xs (a ∷ ys) d.0 in
    (
      ((λ e. apart.0 (omega arith)), rest.0),
      (All-append _ xs ys (Fresh-append_left x xs (a ∷ ys) d.0) apart.1, rest.1),
    )

-- The last of a second list is not in the first.
pub Distinct-get_last? :
    (xs ys : List ℕ) (l : ℕ) → Distinct (xs ++ ys) → get_last? ys ≡ some l → Fresh l xs
Distinct-get_last? [] ys l d e = tt
Distinct-get_last? (x ∷ xs) ys l d e = (
  (λ q. All-get_last? (λ y. x ≢ y) ys l (Fresh-append_right x xs ys d.0) e (omega arith)),
  Distinct-get_last? xs ys l d.1 e,
)

pub Distinct-append :
    (xs ys : List ℕ) → Distinct xs → Distinct ys → All (λ x. Fresh x ys) xs → Distinct (xs ++ ys)
Distinct-append [] ys d e a = e
Distinct-append (x ∷ xs) ys d e a = (All-append _ xs ys d.0 a.0, Distinct-append xs ys d.1 e a.1)

pub Distinct-cross : (xs ys : List ℕ) → Distinct (xs ++ ys) → All (λ x. Fresh x ys) xs
Distinct-cross [] ys d = tt
Distinct-cross (x ∷ xs) ys d = (Fresh-append_right x xs ys d.0, Distinct-cross xs ys d.1)

All-Fresh_nil : (ys : List ℕ) → All (λ y. Fresh y []) ys
All-Fresh_nil [] = tt
All-Fresh_nil (y ∷ ys) = (tt, All-Fresh_nil ys)

All-Fresh_cons :
    (x : ℕ) (xs ys : List ℕ)
    → Fresh x ys
    → All (λ y. Fresh y xs) ys
    → All (λ y. Fresh y (x ∷ xs)) ys
All-Fresh_cons x xs [] f h = tt
All-Fresh_cons x xs (y ∷ ys) f h = (((λ e. f.0 (omega arith)), h.0), All-Fresh_cons x xs ys f.1 h.1)

cross_right : (xs ys : List ℕ) → Distinct (xs ++ ys) → All (λ y. Fresh y xs) ys
cross_right [] ys d = All-Fresh_nil ys
cross_right (x ∷ xs) ys d =
    All-Fresh_cons x xs ys (Fresh-append_right x xs ys d.0) (cross_right xs ys d.1)

pub Distinct-append_comm : (xs ys : List ℕ) → Distinct (xs ++ ys) → Distinct (ys ++ xs)
Distinct-append_comm xs ys d =
    Distinct-append ys xs (Distinct-append_right xs ys d) (Distinct-append_left xs ys d)
      (cross_right xs ys d)

pub Distinct-insert :
    (xs : List ℕ) (a : ℕ) (ys : List ℕ)
    → Fresh a (xs ++ ys)
    → Distinct (xs ++ ys)
    → Distinct (xs ++ a ∷ ys)
Distinct-insert [] a ys f d = (f, d)
Distinct-insert (x ∷ xs) a ys f d = (
  All-append _ xs (a ∷ ys) (Fresh-append_left x xs ys d.0)
      ((λ e. f.0 (omega arith)), Fresh-append_right x xs ys d.0),
  Distinct-insert xs a ys f.1 d.1,
)

pub All-middle {ℓ κ} :
    {A : Type ℓ} (P : A → Type κ) (xs : List A) (a : A) (ys : List A)
    → All P (xs ++ a ∷ ys)
    → P a × All P (xs ++ ys)
All-middle P [] a ys h = h
All-middle P (x ∷ xs) a ys h = let rest = All-middle P xs a ys h.1 in (rest.0, (h.0, rest.1))
