-- ===== src/Prelude/Dict.antt =====
-- std::map and std::unordered_map: association lists with unique keys, of numbers or of texts.
use Prim.Native.Nat.{ℕ}
use mathlib.Core.Path.{◌≡◌, refl, ◌∙◌}
use mathlib.Core.Logic.{◌↔◌, ◌≢◌, inl, inr}
use mathlib.Core.Bool.{Bool, true}
use mathlib.Core.Option.{Option, none, some}
use mathlib.Core.List.{List, [], ◌∷◌}
use native.Mathlib.Omega.{arith}
use Prim.Native.String.{String}
use text.Mathlib.Text.{◌==◌ as str_eq}
use text.Mathlib.TextEquality.{eq_iff}
use konsan_net.Prelude.Tests.{Option-cases, if◌then◌else◌, ◌==◌ as nat_eq, ==_iff}
use konsan_net.Prelude.Lists.{All}

-- A key type with its Boolean equality.
pub record Key {ℓ} (K : Type ℓ) : Type ℓ where
  pub beq : K → K → Bool
  pub beq_iff : (a b : K) → (beq a b ≡ true) ↔ (a ≡ b)

instance abbrev pub nat_key : Key ℕ
nat_key = record { beq = nat_eq; beq_iff = ==_iff }

instance abbrev pub string_key : Key String
string_key = record { beq = str_eq; beq_iff = eq_iff }

pub beq_refl {ℓ} : {K : Type ℓ} ⦃k : Key K⦄ (a : K) → k.beq a a ≡ true
beq_refl ⦃k⦄ a = (k.beq_iff a a).1 refl

module _ {ℓ κ} {K : Type ℓ} ⦃k : Key K⦄ {V : Type κ} where
  -- find: the value at a key, none for end().
  unfoldable pub find : K → List (K × V) → Option V
  find a [] = none
  find a ((b, v) ∷ m) = if k.beq b a then some v else find a m

  -- m[key] = value
  unfoldable pub insert : K → V → List (K × V) → List (K × V)
  insert a v [] = (a, v) ∷ []
  insert a v ((b, w) ∷ m) = if k.beq b a then (a, v) ∷ m else (b, w) ∷ insert a v m

  -- map.insert(make_pair(key, value)), which keeps an entry that is there.
  unfoldable pub insert_new : K → V → List (K × V) → List (K × V)
  insert_new a v m = elim (find a m) [ none ↦ insert a v m | some w ↦ m ]

  -- erase
  unfoldable pub erase : K → List (K × V) → List (K × V)
  erase a [] = []
  erase a ((b, w) ∷ m) = if k.beq b a then m else (b, w) ∷ erase a m

  abbrev pub Absent : K → List (K × V) → Type ℓ
  Absent a = All (λ e. a ≢ e.0)

  abbrev pub UniqueKeys : List (K × V) → Type ℓ
  UniqueKeys [] = Unit
  UniqueKeys ((a, v) ∷ m) = Absent a m × UniqueKeys m

  pub find-insert :
      (a b : K) (v : V) (m : List (K × V))
      → find b (insert a v m) ≡ (if k.beq a b then some v else find b m)
  unfolding find insert
  find-insert a b v [] = refl
  find-insert a b v ((c, w) ∷ m) =
      ground (arith, k.beq_iff a b, k.beq_iff c a, k.beq_iff c b, find-insert a b v m)

  pub find-Absent : (a : K) (m : List (K × V)) → Absent a m → find a m ≡ none
  unfolding find
  find-Absent a [] h = refl
  find-Absent a ((b, w) ∷ m) h = ground (arith, k.beq_iff b a, find-Absent a m h.1)

  pub find-erase :
      (a b : K) (m : List (K × V))
      → UniqueKeys m
      → find b (erase a m) ≡ (if k.beq a b then none else find b m)
  unfolding find erase
  find-erase a b [] u = ground arith
  find-erase a b ((c, w) ∷ m) u = ground (
    arith,
    k.beq_iff a b,
    k.beq_iff c a,
    k.beq_iff c b,
    find-erase a b m u.1,
    find-Absent c m u.0,
  )

  pub find-insert_new :
      (a : K) (v : V) (m : List (K × V))
      → find a (insert_new a v m) ≡ elim (find a m) [ none ↦ some v | some w ↦ some w ]
  unfolding insert_new
  find-insert_new a v m = elim (Option-cases (find a m)) [
    | inl e ↦ rw (e, insert_new) (find-insert a a v m ∙ rw (beq_refl a) refl)
    | inr (w, e) ↦ rw (e, insert_new) e
  ]
