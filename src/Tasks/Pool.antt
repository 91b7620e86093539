-- ===== src/Tasks/Pool.antt =====
-- CXTask/src/CXTaskPool.cpp and, without WIN32, CXEvent/src/CXEvent.cpp: PushTask, GetFreeTaskObject,
-- FreeTaskObject, the smaller case of ResizePool, and ProcessTasks, cut where a thread waits, takes the
-- lock, or runs a task. Tasks are pointers, as numbers. An event is a semaphore: SetEvent adds one, and a
-- thread that waits takes one. `Step` is one thread's next piece; the threads' steps come in any order.
pub mod Attended
use konsan_net.Prelude.{
  ℕ, zero, suc, ◌+◌, ◌-◌, Bool, true, false, ◌≡◌, Option, none, some, List, [], ◌∷◌, ◌++◌, ltb,
  if◌then◌else◌, find, insert, nat_key,
}
use konsan_net.Chain.{set_at}

-- Where a thread is in ProcessTasks: at the wait, behind it, at the inner loop's lock, in a task, or gone.
pub data Worker : Type 0 where
  waits : Worker
  woken : Worker
  looks : Worker
  runs : ℕ → Worker
  gone : Worker

pub record TaskPool : Type 0 where
  pub queue_outstanding_task : List ℕ
  pub event : ℕ
  pub event_resize_finished : ℕ
  pub reducing_pool_size : Bool
  pub pool_size : ℕ
  pub reduced_pool_size : ℕ
  pub registered_task_class : List (ℕ × ℕ)
  pub free_task_obj : List (ℕ × List ℕ)
  pub task_type : ℕ → ℕ
  pub worker : ℕ → Worker

-- PushTask
unfoldable pub push_task : ℕ → TaskPool → TaskPool
push_task t p = record p {
  queue_outstanding_task = p.queue_outstanding_task ++ t ∷ [];
  event = p.event + 1;
}

-- GetFreeTaskObject, where `created` is what CreateObject of the registered class returns.
unfoldable pub create_task_object : ℕ → Option ℕ → TaskPool → Option ℕ
create_task_object type created p = elim (find type p.registered_task_class) [
  | none ↦ none
  | some c ↦ created
]

unfoldable pub get_free_task_object : ℕ → Option ℕ → TaskPool → Option ℕ × TaskPool
get_free_task_object type created p = elim (find type p.free_task_obj) [
  | none ↦ (create_task_object type created p, p)
  | some [] ↦ (create_task_object type created p, p)
  | some (t ∷ rest) ↦ (some t, record p { free_task_obj = insert type rest p.free_task_obj })
]

-- FreeTaskObject: the list of a type that has one loses its first task, and the freed task is not put in.
unfoldable pub free_task_object : ℕ → TaskPool → TaskPool
free_task_object t p = elim (find (p.task_type t) p.free_task_obj) [
  | none ↦ record p { free_task_obj = insert (p.task_type t) (t ∷ []) p.free_task_obj }
  | some [] ↦ p
  | some (u ∷ rest) ↦ record p { free_task_obj = insert (p.task_type t) rest p.free_task_obj }
]

unfoldable pub set_worker : ℕ → Worker → TaskPool → TaskPool
set_worker i w p = record p { worker = set_at p.worker i w }

-- WaitForSingleObject that took one.
unfoldable pub wake : ℕ → TaskPool → TaskPool
wake i p = set_worker i Worker.woken (record p { event = p.event - 1 })

-- The part of ProcessTasks under its first lock.
unfoldable pub check_resize : ℕ → TaskPool → TaskPool
check_resize i p =
    if p.reducing_pool_size
    then (if ltb p.reduced_pool_size p.pool_size
        then set_worker i Worker.gone (record p { pool_size = p.pool_size - 1 })
        else set_worker i Worker.looks (record p {
          reducing_pool_size = false;
          event_resize_finished = p.event_resize_finished + 1;
        }))
    else set_worker i Worker.looks p

-- The part under its second lock: a task is run, or there is none and the thread waits again.
unfoldable pub take_task : ℕ → TaskPool → TaskPool
take_task i p = elim p.queue_outstanding_task [
  | [] ↦ set_worker i Worker.waits p
  | t ∷ rest ↦ set_worker i (Worker.runs t) (record p { queue_outstanding_task = rest })
]

-- The task has run.
unfoldable pub finish_task : ℕ → ℕ → TaskPool → TaskPool
finish_task i t p = set_worker i Worker.looks (free_task_object t p)

-- ResizePool to fewer threads: it sets the event once for each thread too many and then waits for that
-- same event, so that it takes one of them back.
unfoldable pub reduce_pool : ℕ → TaskPool → TaskPool
reduce_pool n p = record p {
  reducing_pool_size = true;
  reduced_pool_size = n;
  event = p.event + (p.pool_size - n) - 1;
}

-- What can happen next, as long as m_bRunning is set and ResizePool is not called.
pub data Step : TaskPool → TaskPool → Type 0 where
  pushes : {p : TaskPool} (t : ℕ) → Step p (push_task t p)
  wakes : {p : TaskPool} (i k : ℕ) → p.worker i ≡ Worker.waits → p.event ≡ suc k → Step p (wake i p)
  checks : {p : TaskPool} (i : ℕ) → p.worker i ≡ Worker.woken → Step p (check_resize i p)
  takes : {p : TaskPool} (i : ℕ) → p.worker i ≡ Worker.looks → Step p (take_task i p)
  finishes : {p : TaskPool} (i t : ℕ) → p.worker i ≡ Worker.runs t → Step p (finish_task i t p)

pub data Steps : TaskPool → TaskPool → Type 0 where
  rest : {p : TaskPool} → Steps p p
  after : {p q r : TaskPool} → Steps p q → Step q r → Steps p r
