-- ===== src/Memory/Manager/Index.antt =====
-- CXMemoryCacheManager::CalculateIndex: which kind of buffers serves a size.
use konsan_net.Prelude.{
  ℕ, zero, suc, ◌*◌, ◌/◌, ◌%◌, ◌^◌, ◌<◌, ◌≤◌, ◌≡◌, ◌≢◌, refl, ap, ◌∙◌, ◌⊎◌, inl, inr, ◌↔◌, arith,
  ltb, Bool-cases,
}
use native.Mathlib.Decide.{dec_lt}
use native.Mathlib.Nat.{pow-suc, pow-le-pow_right}
use konsan_net.Memory.Manager.{halvings, calculate_index}

halvings_zero : (f v : ℕ) → v ≤ 1 → halvings f v ≡ 0
unfolding halvings
halvings_zero zero v h = refl
halvings_zero (suc f) v h = ground arith

pow_positive : (k : ℕ) → 0 < 2 ^ k
pow_positive zero = omega arith
pow_positive (suc k) = omega (arith, pow-suc 2 k, pow_positive k)

halvings-suc : (f v : ℕ) → 1 < v → halvings (suc f) v ≡ suc (halvings f (v / 2))
unfolding halvings
halvings-suc f v h = ground arith

-- Enough fuel: the value lies between two powers of two.
halvings_bracket :
    (f v : ℕ) → 0 < v → v < 2 ^ f → (2 ^ halvings f v ≤ v) × (v < 2 ^ halvings f v * 2)
halvings_bracket zero v p h = absurd (omega arith)
halvings_bracket (suc f) v p h = elim (Bool-cases (ltb 1 v)) [
  | inl big ↦
      let more : 1 < v = ground arith in
      let half = halvings_bracket f (v / 2) (omega arith) (halve f v h) in
      let step = halvings-suc f v more in
      let power = pow-suc 2 (halvings f (v / 2)) in
      (rw (step, power) (omega (arith, half.0)), rw (step, power) (omega (arith, half.1)))
  | inr small ↦ let one : v ≤ 1 = ground arith in rw (halvings_zero (suc f) v one) (omega arith)
]
  where
    halve : (f v : ℕ) → v < 2 ^ suc f → v / 2 < 2 ^ f
    halve f v h = omega (arith, pow-suc 2 f)

-- The value before a size's index is rounded up.
abbrev units : ℕ → ℕ
units size = size / 256

calculate_index_small : (size : ℕ) → size / 256 ≡ 0 → calculate_index size ≡ 0
unfolding calculate_index
calculate_index_small size e = ground arith

calculate_index_exact :
    (size : ℕ) → 0 < size / 256 → size % 256 ≡ 0 → calculate_index size ≡ halvings 32 (size / 256)
unfolding calculate_index
calculate_index_exact size p e = ground arith

calculate_index_round :
    (size : ℕ)
    → 0 < size / 256
    → 0 < size % 256
    → calculate_index size ≡ suc (halvings 32 (size / 256))
unfolding calculate_index
calculate_index_round size p e = ground arith

halvings_power : (f k : ℕ) → k ≤ f → halvings f (2 ^ k) ≡ k
halvings_power f zero h = halvings_zero f 1 (omega arith)
halvings_power zero (suc k) h = absurd (omega arith)
halvings_power (suc f) (suc k) h =
    let double = pow-suc 2 k in
    let positive : 0 < 2 ^ k = pow_positive k in
    halvings-suc f (2 ^ suc k) (omega (arith, double))
    ∙ ap (λ v. suc (halvings f v)) (omega (arith, double))
    ∙ ap suc (halvings_power f k (omega arith))

-- An exponent is below 24 where the power, of units of 256 bytes, fits in 32 bits.
exponent_small : (k : ℕ) → 256 * 2 ^ k < 2 ^ 32 → k < 24
exponent_small k h = elim (dec_lt k 24) [
  | yes p ↦ p
  | no p ↦
      let mono : 2 ^ 24 ≤ 2 ^ k =
        pow-le-pow_right {n = 2} (omega arith) {i = 24} {j = k} (omega arith) in
      absurd (omega (arith, mono, h))
]

-- CalculateIndex finds the kind whose buffers have exactly the size.
pub calculate_index_power : (k : ℕ) → k < 24 → calculate_index (256 * 2 ^ k) ≡ k
calculate_index_power k h =
    let positive = pow_positive k in
    calculate_index_exact (256 * 2 ^ k) (omega (arith, positive)) (omega arith)
    ∙ ap (halvings 32) (omega arith)
    ∙ halvings_power 32 k (omega arith)

-- The sizes of the kinds of buffers.
abbrev pub IsKindSize : ℕ → Type 0
IsKindSize size = (k : ℕ) × (size ≡ 256 * 2 ^ k)

kind_size_exact :
    (size : ℕ) → size < 2 ^ 32 → IsKindSize size → 2 ^ halvings 32 (size / 256) ≡ size / 256
kind_size_exact size h (k, e) =
    let units : size / 256 ≡ 2 ^ k = omega (arith, e) in
    rw units (ap (λ r. 2 ^ r) (halvings_power 32 k (omega (arith, exponent_small k (omega arith)))))

-- The three ways of CalculateIndex.
size_cases :
    (size : ℕ)
    → (size / 256 ≡ 0)
      ⊎ ((0 < size / 256) × (size % 256 ≡ 0))
      ⊎ ((0 < size / 256) × (0 < size % 256))
size_cases size = ground arith

module _ (size : ℕ) (h : size < 2 ^ 32) where
  r : ℕ
  r = halvings 32 (size / 256)

  bracket : 0 < size / 256 → (2 ^ r ≤ size / 256) × (size / 256 < 2 ^ r * 2)
  unfolding r
  bracket p = halvings_bracket 32 (size / 256) p (omega arith)

  too_small_exact :
      0 < size / 256
      → size % 256 ≡ 0
      → (256 * 2 ^ r < size) ↔ ((256 ≤ size) × (size % 256 ≡ 0) × ¬ IsKindSize size)
  unfolding r
  too_small_exact p e = (
    λ small. (omega arith, e, λ kind. omega (arith, kind_size_exact size h kind, small)),
    λ bad. omega (arith, not_power bad.2, (bracket p).0),
  )
    where
      not_power : ¬ IsKindSize size → 2 ^ halvings 32 (size / 256) ≢ size / 256
      not_power n q = n (halvings 32 (size / 256), omega (arith, q))

-- The buffers of the kind that CalculateIndex finds are too small exactly for the multiples of 256
-- bytes that are not the size of a kind.
pub calculate_index_too_small :
    (size : ℕ)
    → size < 2 ^ 32
    → (256 * 2 ^ calculate_index size < size)
      ↔ ((256 ≤ size) × (size % 256 ≡ 0) × ¬ IsKindSize size)
unfolding r
calculate_index_too_small size h = elim (size_cases size) [
  | inl none_left ↦
      rw (calculate_index_small size none_left)
        ((λ small. absurd (omega arith)), (λ bad. absurd (omega arith)))
  | inr (inl (p, e)) ↦ rw (calculate_index_exact size p e) (too_small_exact size h p e)
  | inr (inr (p, e)) ↦
      let power = pow-suc 2 (halvings 32 (size / 256)) in
      let top = (bracket size h p).1 in
      rw (calculate_index_round size p e)
        ((λ small. absurd (omega (arith, power, top))), (λ bad. absurd (omega arith)))
]

exponent_below : (k j v : ℕ) → 2 ^ k ≤ v → v < 2 ^ j → k < j
exponent_below k j v h l = elim (dec_lt k j) [
  | yes p ↦ p
  | no p ↦
      let mono : 2 ^ j ≤ 2 ^ k =
        pow-le-pow_right {n = 2} (omega arith) {i = j} {j = k} (omega arith) in
      absurd (omega (arith, mono))
]

-- The index of a size up to 1 MB lies in the array of 13 kinds.
pub calculate_index_bound : (size : ℕ) → size ≤ 2 ^ 20 → calculate_index size < 13
unfolding r
calculate_index_bound size h = elim (size_cases size) [
  | inl none_left ↦ omega (arith, calculate_index_small size none_left)
  | inr (inl (p, e)) ↦
      let low = (bracket size (omega arith) p).0 in
      omega (
        arith,
        calculate_index_exact size p e,
        exponent_below (halvings 32 (size / 256)) 13 (size / 256) low (omega arith),
      )
  | inr (inr (p, e)) ↦
      let low = (bracket size (omega arith) p).0 in
      omega (
        arith,
        calculate_index_round size p e,
        exponent_below (halvings 32 (size / 256)) 12 (size / 256) low (omega arith),
      )
]
