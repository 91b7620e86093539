-- ===== src/Container/Queue/Laws.antt =====
-- CXQueue as one queue: the backup is drained before the current pool is read.
use konsan_net.Prelude.{
  ℕ, suc, ◌≤◌, ◌≡◌, ◌≢◌, ◌↔◌, refl, ap, ◌∙◌, sym, true, false, none, some, List, [], ◌∷◌, ◌++◌,
  arith, length, ◌⊎◌, inl, inr, append-nil, Bool-cases, length-map,
}
use konsan_net.Container.QueueData
use konsan_net.Container.QueueData.{QueueData}
use konsan_net.Container.QueueData.Invariant.{Represents}
use konsan_net.Container.QueueData.Life.{Blank, destroy-Blank}
use konsan_net.Container.Queue.{Queue, compact_memory, retire_backup, prepare}

-- A pool with its data: it is blank, or holds `xs` with `k` empty nodes to spare.
abbrev pub Pool : QueueData → List ℕ → ℕ → Type 0
Pool q xs k = (Blank q × (xs ≡ [])) ⊎ Represents q xs k

-- The queue serves `ys`, which are in the backup, and then `zs`, which are in the current pool.
-- `j` and `k` empty nodes are left in the two pools.
pub record Serves (s : Queue) (ys zs : List ℕ) (j k : ℕ) : Type 0 where
  pub settled : (s.is_swapping_queue ≡ false) → Blank s.backup × (ys ≡ [])
  pub draining : (s.is_swapping_queue ≡ true) → Represents s.backup ys j
  pub filling : Pool s.current zs k
  pub ready : s.inited ≡ true

pub Pool-using :
    (q : QueueData) (xs : List ℕ) (k : ℕ) → Pool q xs k → q.number_of_using_nodes ≡ length xs
Pool-using q xs k (inl (b, e)) = rw e b.none_using
Pool-using q xs k (inr (us, es, h, i, m, n)) =
    omega (arith, h.using_count, length-map q.value us, ap (length {A = ℕ}) m)

not_blank :
    (q : QueueData) (xs : List ℕ) (k : ℕ) → Pool q xs k → q.number_of_blocks ≢ 0 → Represents q xs k
not_blank q xs k (inl (b, e)) n = absurd (n b.no_blocks)
not_blank q xs k (inr h) n = h

-- CompactMemory divides by the number of used nodes.
abbrev pub DividesByZero : Queue → Type 0
DividesByZero s =
    (s.is_swapping_queue ≡ false)
    × (10 ≤ s.current.number_of_blocks)
    × (s.backup.number_of_using_nodes ≡ 0)
    × (s.current.number_of_using_nodes ≡ 0)

-- CompactMemory faults exactly where no pool holds data, ten blocks or more are in the current one,
-- and the queue is not swapping.
pub compact_memory_fault : (s : Queue) → (compact_memory s ≡ none) ↔ DividesByZero s
unfolding compact_memory
compact_memory_fault s = ground arith

abbrev swapped : Queue → Queue
swapped s = record s { current = s.backup; backup = s.current; is_swapping_queue = true }

compact_memory_cases :
    (s : Queue)
    → ¬ DividesByZero s
    → (compact_memory s ≡ some s)
      ⊎ ((compact_memory s ≡ some (swapped s))
          × (s.is_swapping_queue ≡ false)
          × (10 ≤ s.current.number_of_blocks))
unfolding compact_memory
compact_memory_cases s n = ground arith

abbrev pub Kept : Queue → List ℕ → ℕ → ℕ → Type 0
Kept r xs j k =
    (ys : List ℕ) × (zs : List ℕ) × (i : ℕ) × Serves r ys zs (suc i) (suc k) × (ys ++ zs ≡ xs)

compact-Serves :
    (s : Queue) (ys zs : List ℕ) (j k : ℕ)
    → Serves s ys zs (suc j) (suc k)
    → ¬ DividesByZero s
    → (r : Queue) × (compact_memory s ≡ some r) × Kept r (ys ++ zs) j k
compact-Serves s ys zs j k v n = elim (compact_memory_cases s n) [
  | inl same ↦ (s, same, (ys, zs, j, v, refl))
  | inr (swap, off, many) ↦ (
    swapped s,
    swap,
    (
      zs,
      [],
      k,
      record {
        settled = λ e. absurd (cc);
        draining = λ _. not_blank s.current zs (suc k) v.filling (λ z. omega arith);
        filling = inl ((v.settled off).0, refl);
        ready = v.ready;
      },
      append-nil zs ∙ ap (λ l. l ++ zs) (sym (v.settled off).1),
    ),
  )
]

retired : Queue → Queue
retired s = record s { backup = QueueData.destroy s.backup; is_swapping_queue = false }

-- A drained backup is not left: PopFront reads a backup that holds data.
abbrev pub Settled : Queue → Type 0
Settled s = s.is_swapping_queue ≡ true → s.backup.number_of_using_nodes ≢ 0

retire_backup_cases :
    (s : Queue)
    → ((retire_backup s ≡ s) × Settled s)
      ⊎ ((retire_backup s ≡ retired s)
          × (s.is_swapping_queue ≡ true)
          × (s.backup.number_of_using_nodes ≡ 0))
unfolding retire_backup retired
retire_backup_cases s = ground arith

pub length_zero : (xs : List ℕ) → length xs ≡ 0 → xs ≡ []
length_zero [] e = refl
length_zero (x ∷ xs) e = absurd (omega arith)

retired-Serves :
    (s : Queue) (ys zs : List ℕ) (j k : ℕ)
    → Serves s ys zs (suc j) (suc k)
    → s.is_swapping_queue ≡ true
    → s.backup.number_of_using_nodes ≡ 0
    → Kept (retired s) (ys ++ zs) j k × Settled (retired s)
unfolding retired
retired-Serves s ys zs j k v on drained =
    let rep = v.draining on in
    let nothing : ys ≡ [] =
      length_zero ys (sym (Pool-using s.backup ys (suc j) (inr rep)) ∙ drained) in
    (
      (
        [],
        zs,
        j,
        record {
          settled = λ _. (destroy-Blank s.backup rep.3, refl);
          draining = λ e. absurd (cc);
          filling = v.filling;
          ready = v.ready;
        },
        ap (λ l. l ++ zs) (sym nothing),
      ),
      λ e. absurd (cc),
    )

retire-Serves :
    (s : Queue) (ys zs : List ℕ) (j k : ℕ)
    → Serves s ys zs (suc j) (suc k)
    → Kept (retire_backup s) (ys ++ zs) j k × Settled (retire_backup s)
retire-Serves s ys zs j k v = elim (retire_backup_cases s) [
  | inl (same, settled) ↦ rw same ((ys, zs, j, v, refl), settled)
  | inr (same, on, drained) ↦ rw same (retired-Serves s ys zs j k v on drained)
]

prepare_compact :
    (s r : Queue)
    → s.auto_compact_memory ≡ true
    → compact_memory s ≡ some r
    → prepare s ≡ some (retire_backup r)
unfolding prepare
prepare_compact s r a e = ground arith

prepare_plain : (s : Queue) → s.auto_compact_memory ≡ false → prepare s ≡ some (retire_backup s)
unfolding prepare
prepare_plain s a = ground arith

-- What Push, Pop and PopFront do first moves no data.
pub prepare-Serves :
    (s : Queue) (ys zs : List ℕ) (j k : ℕ)
    → Serves s ys zs (suc j) (suc k)
    → ¬ DividesByZero s
    → (r : Queue) × (prepare s ≡ some r) × Kept r (ys ++ zs) j k × Settled r
prepare-Serves s ys zs j k v n = elim (Bool-cases s.auto_compact_memory) [
  | inl on ↦
      let (r, done, (ys', zs', i, w, e)) = compact-Serves s ys zs j k v n in
      let ((ys2, zs2, i2, w2, e2), settled) = retire-Serves r ys' zs' i k w in
      (retire_backup r, prepare_compact s r on done, (ys2, zs2, i2, w2, e2 ∙ e), settled)
  | inr off ↦
      let (kept, settled) = retire-Serves s ys zs j k v in
      (retire_backup s, prepare_plain s off, kept, settled)
]
