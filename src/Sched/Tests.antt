-- ===== src/Sched/Tests.antt =====
-- The scheduler of kernel/src/proc/sched.c at concrete inputs: three tasks in the run queue.
use pros.Common.{
  ℕ, ◌+◌, ◌<◌, ◌≡◌, ◌⊎◌, refl, true, false, some, List, [], ◌∷◌, ◌++◌, arith, ◌==◌, if◌then◌else◌,
  length,
}
use pros.Sched.{
  Sched, Task, TaskState, Outcome, is_ready, sched_pick_next, sched_add_task, wakeup,
  scheduler_round, sleep, scheduler_resumed, task_stack_intact,
}
use pros.Sched.Ring.{IsRing, order}
use pros.Sched.Pick.{IsQueue, first_ready, chose, sched_pick_next-first_ready}
use pros.Sched.Fair.{sched_pick_next-fair}
use pros.Sched.Wakeup.{WokenAt, wakeup-woken}
use pros.Sched.Queue.{sched_add_task-IsRing}
use pros.Sched.Machine.{Phase, Run, Step, IsSafe, Run-IsSafe, scheduler_resumed-ok}

-- The tasks 1, 2 and 3 in a ring; task 2 sleeps on the channel 77, the others are ready.
abbrev three : ℕ → Task
three t = record {
  state = if t == 2 then TaskState.blocked else TaskState.ready;
  kernel_stack_base = 0;
  kernel_stack_top = 0;
  trap_frame = 0;
  switch_frame = 0;
  vmm_context = 0;
  switch_count = 0;
  chan = if t == 2 then 77 else 0;
  next = if t == 3 then 1 else t + 1;
}

abbrev queue : Sched
queue = record {
  run_queue_head = 1;
  current = 0;
  cursor = 0;
  scheduler_task = 9;
  scheduler_frame = 5;
  need_resched = false;
  task = three;
  irq_enabled = false;
  locked = λ lk. false;
  memory = λ a. 0;
  root_phys = λ c. 0;
  vmm_current_context = 0;
  user_root = 0;
  kernel_stack = 0;
}

queue-IsRing : IsRing queue 1 (2 ∷ 3 ∷ [])
queue-IsRing = record {
  ring = omega arith;
  distinct = omega arith;
  start_set = omega arith;
  others_set = omega arith;
}

queue-IsQueue : IsQueue queue 1 (2 ∷ 3 ∷ [])
queue-IsQueue = record { head_set = omega arith; resumes = refl; is_ring = queue-IsRing }

pick_three : sched_pick_next 5 queue ≡ some (some 3, record queue { cursor = 3 })
unfolding sched_pick_next
pick_three = refl

sched_pick_next-first_ready_example :
    sched_pick_next 3 queue
    ≡ some (first_ready queue (2 ∷ 3 ∷ 1 ∷ []), chose queue (first_ready queue (2 ∷ 3 ∷ 1 ∷ [])))
sched_pick_next-first_ready_example =
    sched_pick_next-first_ready 3 queue 1 (2 ∷ 3 ∷ []) queue-IsQueue (omega arith)

sched_pick_next-fair_example :
    (x : ℕ) × (sched_pick_next 3 queue ≡ some (some x, record queue { cursor = x }))
    × (is_ready (queue.task x).state ≡ true)
    × ((x ≡ 1)
        ⊎ ((others' : List ℕ) × (pre' : List ℕ) × (post' : List ℕ) × IsQueue
              (record queue { cursor = x })
              x
              others'
            × (order x others' ≡ pre' ++ (1 ∷ post'))
            × (length pre' < 2)))
sched_pick_next-fair_example =
    sched_pick_next-fair 3 queue 1 (2 ∷ 3 ∷ []) (2 ∷ 3 ∷ []) [] 1 queue-IsQueue (omega arith) refl
      refl

wakeup-woken_example :
    (wakeup 3 0 queue ≡ some queue)
    × ((task' : ℕ → Task) × (wakeup 3 77 queue ≡ some (record queue { task = task' }))
        × ((a : ℕ) → WokenAt 77 (1 ∷ 2 ∷ 3 ∷ []) three task' a))
wakeup-woken_example = wakeup-woken 3 77 queue (2 ∷ 3 ∷ []) queue-IsRing (omega arith) (omega arith)

sched_add_task-IsRing_example :
    ((sched_add_task 8 queue).run_queue_head ≡ 1)
    × IsRing (sched_add_task 8 queue) 1 (8 ∷ 2 ∷ 3 ∷ [])
sched_add_task-IsRing_example =
    sched_add_task-IsRing queue 8 (2 ∷ 3 ∷ []) (omega arith) queue-IsRing (omega arith)
      (omega arith)

queue-IsSafe : IsSafe Phase.scheduling queue
queue-IsSafe = (refl, λ t. ground arith)

-- Task 3 is dispatched, and goes to sleep on the channel 78.
run_to_sleep :
    (s' : Sched) × Run Phase.scheduling queue (Phase.leaving 3) s' × (task_stack_intact s' 3 ≡ true)
unfolding scheduler_round sleep task_stack_intact
run_to_sleep =
    (_, Run.next (Run.next Run.here (Step.dispatch 5 6 3 refl)) (Step.block 7 78 1 3 refl), refl)

Run-IsSafe_example : IsSafe (Phase.leaving 3) run_to_sleep.0
Run-IsSafe_example = Run-IsSafe run_to_sleep.1 queue-IsSafe

scheduler_resumed-ok_example : (s'' : Sched) × (scheduler_resumed 3 run_to_sleep.0 ≡ Outcome.ok s'')
scheduler_resumed-ok_example = scheduler_resumed-ok 3 run_to_sleep.1 queue-IsSafe run_to_sleep.2
