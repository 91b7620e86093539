-- ===== src/Tasks/Tests.antt =====
-- The pool of tasks at a concrete state.
use konsan_net.Prelude.{refl, false, []}
use konsan_net.Tasks.Pool.{Worker, TaskPool, Step, Steps, push_task, wake, check_resize, set_worker}
use konsan_net.Tasks.Pool.Attended.{Attention, Attended, steps-Attended}

abbrev two_threads : TaskPool
two_threads = record {
  queue_outstanding_task = [];
  event = 0;
  event_resize_finished = 0;
  reducing_pool_size = false;
  pool_size = 2;
  reduced_pool_size = 2;
  registered_task_class = [];
  free_task_obj = [];
  task_type = λ t. 1;
  worker = λ i. Worker.waits;
}

-- Two tasks are pushed, and one thread wakes for them.
abbrev two_tasks : TaskPool
two_tasks = push_task 8 (push_task 7 two_threads)

steps-Attended_example : Attended (check_resize 0 (wake 0 two_tasks))
unfolding push_task wake set_worker
steps-Attended_example =
    steps-Attended two_threads (check_resize 0 (wake 0 two_tasks))
      (record { keeps_size = refl; attention = Attention.empty refl })
      (let first : Steps two_threads (push_task 7 two_threads) =
          Steps.after Steps.rest (Step.pushes {p = two_threads} 7) in
        let second : Steps two_threads two_tasks =
          Steps.after first (Step.pushes {p = push_task 7 two_threads} 8) in
        let third : Steps two_threads (wake 0 two_tasks) =
          Steps.after second (Step.wakes {p = two_tasks} 0 1 refl refl) in
        Steps.after third (Step.checks {p = wake 0 two_tasks} 0 refl))
