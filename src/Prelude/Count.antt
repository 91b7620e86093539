-- ===== src/Prelude/Count.antt =====
-- How often a number is listed, for lists, ranges of new addresses and the values of maps.
use Prim.Native.Nat.{ℕ, ◌+◌}
use mathlib.Core.Path.{◌≡◌, refl}
use mathlib.Core.Bool.{Bool, not}
use mathlib.Core.Option.{none, some}
use mathlib.Core.List.{List, [], ◌∷◌, ◌++◌, map}
use native.Mathlib.Omega.{arith}
use konsan_net.Prelude.Tests.{if◌then◌else◌, ◌==◌}
use konsan_net.Prelude.Dict.{Key, find, insert, erase}

abbrev pub is_one : ℕ → ℕ → ℕ
is_one a x = if x == a then 1 else 0

abbrev pub count : ℕ → List ℕ → ℕ
count a [] = 0
count a (x ∷ xs) = is_one a x + count a xs

pub count-append : (a : ℕ) (xs ys : List ℕ) → count a (xs ++ ys) ≡ count a xs + count a ys
count-append a [] ys = omega arith
count-append a (x ∷ xs) ys = let h = count-append a xs ys in omega arith

-- The elements that pass a test, in their order.
unfoldable pub filter {ℓ} : {A : Type ℓ} → (A → Bool) → List A → List A
filter p [] = []
filter p (x ∷ xs) = let rest = filter p xs in if p x then x ∷ rest else rest

pub count-filter :
    (a : ℕ) (p : ℕ → Bool) (xs : List ℕ)
    → count a (filter p xs) + count a (filter (λ x. not (p x)) xs) ≡ count a xs
unfolding filter
count-filter a p [] = refl
count-filter a p (x ∷ xs) = ground (arith, count-filter a p xs)

module _ {ℓ} {K : Type ℓ} ⦃k : Key K⦄ where
  abbrev pub values {κ} : {V : Type κ} → List (K × V) → List V
  values m = map (λ e. e.1) m

  pub count-insert :
      (a : ℕ) (i : K) (v : ℕ) (m : List (K × ℕ))
      → find i m ≡ none
      → count a (values (insert i v m)) ≡ count a (values m) + is_one a v
  unfolding find insert
  count-insert a i v [] h = omega arith
  count-insert a i v ((j, w) ∷ m) h = ground (arith, count-insert a i v m)

  pub count-erase :
      (a : ℕ) (i : K) (v : ℕ) (m : List (K × ℕ))
      → find i m ≡ some v
      → count a (values m) ≡ is_one a v + count a (values (erase i m))
  unfolding find erase
  count-erase a i v [] h = ground arith
  count-erase a i v ((j, w) ∷ m) h = ground (arith, count-erase a i v m)
