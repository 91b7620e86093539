-- ===== src/Tasks/Pool/Attended.antt =====
-- CXTaskPool.cpp: no task is forgotten.
use konsan_net.Prelude.{
  ℕ, ◌+◌, ◌-◌, ◌<◌, ◌≡◌, refl, sym, ap, ◌∙◌, subst, Bool, true, false, [], ◌∷◌, arith, nat_key, ltb,
  if◌then◌else◌,
}
use konsan_net.Chain.{set_at_self}
use konsan_net.Tasks.Pool.{
  Worker, TaskPool, Step, Steps, push_task, wake, check_resize, take_task, finish_task,
  free_task_object, set_worker,
}

-- A thread that will look at the queue before it waits.
unfoldable pub is_active : Worker → Bool
is_active Worker.waits = false
is_active Worker.woken = true
is_active Worker.looks = true
is_active (Worker.runs t) = true
is_active Worker.gone = false

-- The pool is not reduced, and a queue with tasks has an event that is set or a thread that is active.
pub data Attention (p : TaskPool) : Type 0 where
  empty : p.queue_outstanding_task ≡ [] → Attention p
  signalled : 0 < p.event → Attention p
  active : (i : ℕ) → is_active (p.worker i) ≡ true → Attention p

pub record Attended (p : TaskPool) : Type 0 where
  pub keeps_size : p.reducing_pool_size ≡ false
  pub attention : Attention p

set_worker-active :
    (i : ℕ) (w : Worker) (p : TaskPool) → is_active w ≡ true → Attention (set_worker i w p)
unfolding set_worker
set_worker-active i w p e = Attention.active i (ap is_active (set_at_self p.worker i w) ∙ e)

free_task_object-size :
    (t : ℕ) (p : TaskPool) → (free_task_object t p).reducing_pool_size ≡ p.reducing_pool_size
unfolding free_task_object
free_task_object-size t p = ground arith

check_resize-Attended : (i : ℕ) (p : TaskPool) → Attended p → Attended (check_resize i p)
unfolding check_resize set_worker is_active
check_resize-Attended i p a =
    let run : check_resize i p ≡ set_worker i Worker.looks p =
      ap
        (λ b.
          if b
          then (if ltb p.reduced_pool_size p.pool_size
              then set_worker i Worker.gone (record p { pool_size = p.pool_size - 1 })
              else set_worker i Worker.looks (record p {
                reducing_pool_size = false;
                event_resize_finished = p.event_resize_finished + 1;
              }))
          else set_worker i Worker.looks p)
        a.keeps_size in
    subst (λ q. Attended q) (sym run)
      (record { keeps_size = a.keeps_size; attention = set_worker-active i Worker.looks p refl })

take_task-Attended : (i : ℕ) (p : TaskPool) → Attended p → Attended (take_task i p)
unfolding take_task set_worker is_active
take_task-Attended i p a =
    elim p.queue_outstanding_task
        as (λ q.
          p.queue_outstanding_task ≡ q
          → Attended (elim q as (λ x. TaskPool) [
            | [] ↦ set_worker i Worker.waits p
            | t ∷ rest ↦ set_worker i (Worker.runs t) (record p { queue_outstanding_task = rest })
          ])) [
            | [] ↦ λ e. record { keeps_size = a.keeps_size; attention = Attention.empty e }
            | t ∷ rest ↦ λ e. record {
              keeps_size = a.keeps_size;
              attention =
                  set_worker-active i (Worker.runs t) (record p { queue_outstanding_task = rest })
                    refl;
            }
          ]
      refl

step-Attended : (p q : TaskPool) → Attended p → Step p q → Attended q
unfolding push_task wake finish_task set_worker is_active
step-Attended p q a (Step.pushes t) = record {
  keeps_size = a.keeps_size;
  attention = Attention.signalled (omega arith);
}
step-Attended p q a (Step.wakes i k w e) = record {
  keeps_size = a.keeps_size;
  attention = set_worker-active i Worker.woken (record p { event = p.event - 1 }) refl;
}
step-Attended p q a (Step.checks i w) = check_resize-Attended i p a
step-Attended p q a (Step.takes i w) = take_task-Attended i p a
step-Attended p q a (Step.finishes i t w) = record {
  keeps_size = free_task_object-size t p ∙ a.keeps_size;
  attention = set_worker-active i Worker.looks (free_task_object t p) refl;
}

-- However the steps of the threads and the pushes of tasks are interleaved, a task that waits in the queue
-- is never forgotten while the pool is not reduced: the event is set, or a thread is on its way to the
-- queue.
pub steps-Attended : (p q : TaskPool) → Attended p → Steps p q → Attended q
steps-Attended p q a Steps.rest = a
steps-Attended p r a (Steps.after {q = q} ms s) = step-Attended q r (steps-Attended p q a ms) s
