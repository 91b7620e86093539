-- ===== src/Container/Tests.antt =====
-- CXContainer at concrete queues: the theorems at inputs that meet their hypotheses.
use konsan_net.Prelude.{
  ℕ, suc, ◌≡◌, refl, true, false, none, some, List, [], ◌∷◌, ◌++◌, arith, inr, ◌==◌, if◌then◌else◌,
}
use konsan_net.Container.QueueData.{QueueData, new_queue_data, push, pop_front}
use konsan_net.Container.QueueData.Invariant.{Represents}
use konsan_net.Container.QueueData.Push.{push_refines}
use konsan_net.Container.QueueData.Pop.{pop_front_refines}
use konsan_net.Container.QueueData.Life.{new_queue_data-Blank}
use konsan_net.Container.Queue
use konsan_net.Container.Queue.{Queue, new_queue, compact_memory}
use konsan_net.Container.Queue.Laws.{Serves, DividesByZero}
use konsan_net.Container.Queue.Fifo.{Served, push_is_last, pop_front_is_first}

-- Three nodes, of which node 0 holds 7.
abbrev three_nodes : QueueData
three_nodes = record {
  list_head = some 0;
  list_end = some 0;
  empty_list_head = some 1;
  empty_list_end = some 2;
  blocks = 0 ∷ [];
  number_of_using_nodes = 1;
  number_of_empty_nodes = 2;
  number_of_blocks = 1;
  init_size = 3;
  inited = true;
  next = λ x. if x == 1 then some 2 else none;
  prev = λ x. if x == 2 then some 1 else none;
  value = λ x. if x == 0 then 7 else 0;
  allocated = 3;
}

three_nodes-Represents : Represents three_nodes (7 ∷ []) 2
three_nodes-Represents = (
  0 ∷ [],
  1 ∷ 2 ∷ [],
  record {
    using_chain = (refl, refl);
    using_end = refl;
    empty_chain = (refl, (refl, refl));
    empty_end = refl;
    apart = omega arith;
    inside = omega arith;
    using_count = refl;
    empty_count = refl;
    room = omega arith;
    small = omega arith;
    bounded = omega arith;
  },
  refl,
  refl,
  refl,
)

push_refines_example :
    (r : QueueData) × (push false 8 three_nodes ≡ some (true, r)) × Represents r (7 ∷ 8 ∷ []) 1
push_refines_example = push_refines false 8 three_nodes (7 ∷ []) 1 three_nodes-Represents

pop_front_refines_example : (r : QueueData) × (pop_front three_nodes ≡ (7, r)) × Represents r [] 3
pop_front_refines_example = pop_front_refines three_nodes 7 [] 1 three_nodes-Represents

-- A queue whose current pool is `three_nodes`.
abbrev one_waiting : Queue
one_waiting = record {
  current = three_nodes;
  backup = new_queue_data;
  init_size = 3;
  inited = true;
  auto_compact_memory = true;
  is_swapping_queue = false;
}

one_waiting-Serves : Serves one_waiting [] (7 ∷ []) 1 2
one_waiting-Serves = record {
  settled = λ _. (new_queue_data-Blank, refl);
  draining = λ e. absurd (cc);
  filling = inr three_nodes-Represents;
  ready = refl;
}

one_waiting_compacts : ¬ DividesByZero one_waiting
one_waiting_compacts h = omega arith

push_is_last_example :
    (r : Queue) × (Queue.push true 8 one_waiting ≡ some (true, r))
    × (us : List ℕ) × (vs : List ℕ) × (i : ℕ) × (n : ℕ) × Serves r us vs (suc i) n
    × (us ++ vs ≡ 7 ∷ 8 ∷ [])
push_is_last_example =
    push_is_last 8 one_waiting [] (7 ∷ []) 0 1 one_waiting-Serves one_waiting_compacts

pop_front_is_first_example :
    (d : ℕ) × (r : Queue) × (Queue.pop_front one_waiting ≡ some (d, r)) × Served (7 ∷ []) d r
pop_front_is_first_example =
    pop_front_is_first one_waiting [] (7 ∷ []) 0 1 one_waiting-Serves one_waiting_compacts
