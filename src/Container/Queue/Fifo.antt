-- ===== src/Container/Queue/Fifo.antt =====
-- CXQueue::Push and PopFront: first in, first out, across the swap of the two pools.
use konsan_net.Prelude.{
  ℕ, suc, ◌≡◌, ◌≢◌, refl, ap, ◌∙◌, sym, subst, true, false, some, List, [], ◌∷◌, ◌++◌, arith, ◌⊎◌,
  inl, inr, append_assoc, Bool-cases,
}
use konsan_net.Container.QueueData
use konsan_net.Container.QueueData.{QueueData}
use konsan_net.Container.QueueData.Invariant.{Represents}
use konsan_net.Container.QueueData.Life.{push-Blank, Blank-pop}
use konsan_net.Container.QueueData.Push.{push_refines}
use konsan_net.Container.QueueData.Pop.{pop_front_refines, pop_front_empty}
use konsan_net.Container.Queue.{
  Queue, prepare, push, push_inited, push_prepared, pop_front, pop_prepared, init,
}
use konsan_net.Container.Queue.Laws.{
  Pool, Serves, DividesByZero, Settled, Pool-using, prepare-Serves,
}

Pool-push :
    (d : ℕ) (q : QueueData) (zs : List ℕ) (k : ℕ)
    → Pool q zs (suc k)
    → (r : QueueData) × (i : ℕ) × (QueueData.push true d q ≡ some (true, r))
      × Represents r (zs ++ d ∷ []) i
Pool-push d q zs k (inl (b, e)) =
    let (r, done, rep) = push-Blank d q b in
    (r, 10239, done, subst (λ l. Represents r (l ++ d ∷ []) 10239) (sym e) rep)
Pool-push d q zs k (inr h) = let (r, done, rep) = push_refines true d q zs k h in (r, k, done, rep)

-- What a pop leaves of a pool.
abbrev Popped : QueueData → List ℕ → ℕ → ℕ → Type 0
Popped r zs d k =
    ((zs ≡ []) × (d ≡ 0) × Pool r [] (suc k))
    ⊎ ((rest : List ℕ) × (zs ≡ d ∷ rest) × Represents r rest (suc (suc k)))

Pool-pop :
    (q : QueueData) (zs : List ℕ) (k : ℕ)
    → Pool q zs (suc k)
    → (d : ℕ) × (r : QueueData) × (QueueData.pop_front q ≡ (d, r)) × Popped r zs d k
Pool-pop q zs k (inl (b, e)) = (0, q, Blank-pop q b, inl (e, refl, inl (b, refl)))
Pool-pop q [] k (inr h) = (0, q, pop_front_empty q (suc k) h, inl (refl, refl, inr h))
Pool-pop q (z ∷ zs) k (inr h) =
    let (r, done, rep) = pop_front_refines q z zs k h in (z, r, done, inr (zs, refl, rep))

push_runs :
    (d : ℕ) (s r : Queue) (q : QueueData)
    → s.inited ≡ true
    → prepare s ≡ some r
    → QueueData.push true d r.current ≡ some (true, q)
    → push true d s ≡ some (true, record r { current = q })
unfolding push push_inited push_prepared init
push_runs d s r q i p e = ground arith

-- Push appends its data to what the queue serves, whichever pool takes it, if both pools have an empty node
-- left, so that no new block is asked for, and CompactMemory does not divide by zero.
pub push_is_last :
    (d : ℕ) (s : Queue) (ys zs : List ℕ) (j k : ℕ)
    → Serves s ys zs (suc j) (suc k)
    → ¬ DividesByZero s
    → (r : Queue) × (push true d s ≡ some (true, r))
      × (us : List ℕ) × (vs : List ℕ) × (i : ℕ) × (n : ℕ) × Serves r us vs (suc i) n
      × (us ++ vs ≡ (ys ++ zs) ++ d ∷ [])
push_is_last d s ys zs j k v n =
    let (r, prepared, (us, vs, i, w, e), settled) = prepare-Serves s ys zs j k v n in
    let (q, m, done, rep) = Pool-push d r.current vs k w.filling in
    (
      record r { current = q },
      push_runs d s r q v.ready prepared done,
      us,
      vs ++ d ∷ [],
      i,
      m,
      record { settled = w.settled; draining = w.draining; filling = inr rep; ready = w.ready },
      sym (append_assoc us vs (d ∷ [])) ∙ ap (λ l. l ++ d ∷ []) e,
    )

pop_runs : (s r : Queue) → prepare s ≡ some r → pop_front s ≡ some (pop_prepared r)
unfolding pop_front
pop_runs s r e = ground arith

pop_current :
    (r : Queue) (d : ℕ) (q : QueueData)
    → r.is_swapping_queue ≡ false
    → QueueData.pop_front r.current ≡ (d, q)
    → pop_prepared r ≡ (d, record r { current = q })
unfolding pop_prepared
pop_current r d q off e = ground arith

pop_backup :
    (r : Queue) (d : ℕ) (q : QueueData)
    → r.is_swapping_queue ≡ true
    → QueueData.pop_front r.backup ≡ (d, q)
    → pop_prepared r ≡ (d, record r { backup = q })
unfolding pop_prepared
pop_backup r d q on e = ground arith

-- What a pop returns of a queue that serves `xs`, and what it leaves.
abbrev pub Served : List ℕ → ℕ → Queue → Type 0
Served xs d r =
    (ys : List ℕ) × (zs : List ℕ) × (j : ℕ) × (k : ℕ) × Serves r ys zs (suc j) (suc k)
    × (((xs ≡ []) × (d ≡ 0) × (ys ++ zs ≡ [])) ⊎ (xs ≡ d ∷ ys ++ zs))

-- A pop of the current pool, with nothing in the backup.
pop_current-Serves :
    (r : Queue) (ys zs : List ℕ) (j k : ℕ)
    → Serves r ys zs (suc j) (suc k)
    → r.is_swapping_queue ≡ false
    → (d : ℕ) × (s : Queue) × (pop_prepared r ≡ (d, s)) × Served (ys ++ zs) d s
pop_current-Serves r ys zs j k v off =
    let (d, q, done, popped) = Pool-pop r.current zs k v.filling in
    let nothing : ys ≡ [] = (v.settled off).1 in
    let left : Queue = record r { current = q } in
    (
      d,
      left,
      pop_current r d q off done,
      elim popped [
        | inl (empty, null, pool) ↦ (
          ys,
          [],
          j,
          k,
          record { settled = v.settled; draining = v.draining; filling = pool; ready = v.ready },
          inl (rw (nothing, empty), null, rw nothing),
        )
        | inr (rest, split, rep) ↦ (
          ys,
          rest,
          j,
          suc k,
          record { settled = v.settled; draining = v.draining; filling = inr rep; ready = v.ready },
          inr (rw (nothing, split)),
        )
      ],
    )

-- A pop of a backup that holds data.
pop_backup-Serves :
    (r : Queue) (ys zs : List ℕ) (j k : ℕ)
    → Serves r ys zs (suc j) (suc k)
    → r.is_swapping_queue ≡ true
    → r.backup.number_of_using_nodes ≢ 0
    → (d : ℕ) × (s : Queue) × (pop_prepared r ≡ (d, s)) × Served (ys ++ zs) d s
pop_backup-Serves r [] zs j k v on some_left =
    absurd (some_left (Pool-using r.backup [] (suc j) (inr (v.draining on))))
pop_backup-Serves r (y ∷ ys) zs j k v on some_left =
    let (q, done, rep) = pop_front_refines r.backup y ys j (v.draining on) in
    (
      y,
      record r { backup = q },
      pop_backup r y q on done,
      (
        ys,
        zs,
        suc j,
        k,
        record {
          settled = λ off. absurd (cc);
          draining = λ _. rep;
          filling = v.filling;
          ready = v.ready;
        },
        inr refl,
      ),
    )

pop_prepared-Serves :
    (r : Queue) (ys zs : List ℕ) (j k : ℕ)
    → Serves r ys zs (suc j) (suc k)
    → Settled r
    → (d : ℕ) × (s : Queue) × (pop_prepared r ≡ (d, s)) × Served (ys ++ zs) d s
pop_prepared-Serves r ys zs j k v settled = elim (Bool-cases r.is_swapping_queue) [
  | inl on ↦ pop_backup-Serves r ys zs j k v on (settled on)
  | inr off ↦ pop_current-Serves r ys zs j k v off
]

-- PopFront serves the first data that the queue holds, whichever pool holds it, and NULL when it
-- holds none, if both pools have an empty node left and CompactMemory does not divide by zero.
pub pop_front_is_first :
    (s : Queue) (ys zs : List ℕ) (j k : ℕ)
    → Serves s ys zs (suc j) (suc k)
    → ¬ DividesByZero s
    → (d : ℕ) × (r : Queue) × (pop_front s ≡ some (d, r)) × Served (ys ++ zs) d r
pop_front_is_first s ys zs j k v n =
    let (r, prepared, (us, vs, i, w, e), settled) = prepare-Serves s ys zs j k v n in
    let (d, t, popped, served) = pop_prepared-Serves r us vs i k w settled in
    (d, t, pop_runs s r prepared ∙ ap some popped, subst (λ xs. Served xs d t) e served)
