-- ===== src/Sched.antt =====
-- kernel/src/proc/sched.c over the tasks of kernel/include/proc/task.h: the run queue, the
-- round-robin choice, sleeping and waking, and the scheduler thread. A task is known by its address,
-- 0 for NULL. A function that gives up the CPU is cut where `arch_task_switch_to` is called: what
-- stands before the switch is one function, what stands after it another.
pub mod Spinlock
pub mod Ring
pub mod Pick
pub mod Fair
pub mod Wakeup
pub mod Queue
pub mod Machine
mod Tests
use pros.Common.{
  ℕ, zero, suc, ◌+◌, Bool, true, false, Option, none, some, ◌&&◌, ◌||◌, not, add64, update, ◌==◌,
  if◌then◌else◌,
}
use pros.Kstack.{kstack_contains, kstack_guard_intact}
use Spinlock.{spinlock_lock, spinlock_unlock}

pub data TaskState : Type 0 where
  dead ready running blocked zombie : TaskState

abbrev pub is_dead : TaskState → Bool
is_dead TaskState.dead = true
is_dead _ = false

abbrev pub is_ready : TaskState → Bool
is_ready TaskState.ready = true
is_ready _ = false

abbrev pub is_running : TaskState → Bool
is_running TaskState.running = true
is_running _ = false

abbrev pub is_blocked : TaskState → Bool
is_blocked TaskState.blocked = true
is_blocked _ = false

-- `struct task`, the fields that scheduling reads or writes.
pub record Task : Type 0 where
  pub state : TaskState
  pub kernel_stack_base : ℕ
  pub kernel_stack_top : ℕ
  pub trap_frame : ℕ
  pub switch_frame : ℕ
  pub vmm_context : ℕ
  pub switch_count : ℕ
  pub chan : ℕ
  pub next : ℕ

-- The statics of sched.c, the tasks, and the parts of the machine that scheduling sets.
pub record Sched : Type 0 where
  pub run_queue_head : ℕ
  pub current : ℕ
  pub cursor : ℕ
  pub scheduler_task : ℕ
  pub scheduler_frame : ℕ
  pub need_resched : Bool
  pub task : ℕ → Task
  pub irq_enabled : Bool
  pub locked : ℕ → Bool
  pub memory : ℕ → ℕ  -- bytes, for the stack guards
  pub root_phys : ℕ → ℕ  -- of each `struct vmm_context`
  pub vmm_current_context : ℕ
  pub user_root : ℕ  -- the register that arch_vmm_set_user_root sets
  pub kernel_stack : ℕ

pub data Outcome : Type 0 where
  ok : Sched → Outcome
  panic : Outcome
  stuck : Outcome  -- spins on a lock that is held, or the fuel is out

abbrev pub next_of : Sched → ℕ → ℕ
next_of s t = (s.task t).next

abbrev pub set_state : Sched → ℕ → TaskState → Sched
set_state s t st = record s { task = update s.task t (record (s.task t) { state = st }) }

-- The loop of `sched_pick_next` on fuel: `none` when that is out, else the task, if there is one.
pick_loop : ℕ → Sched → ℕ → ℕ → Option (Option ℕ)
pick_loop zero s task start = none
pick_loop (suc fuel) s task start =
    let t = next_of s task in
    let rest = pick_loop fuel s t start in
    if is_ready (s.task t).state then some (some t) else if t == start then some none else rest

-- With the scheduler after it, whose `cursor` is moved.
unfoldable pub sched_pick_next : ℕ → Sched → Option (Option ℕ × Sched)
unfolding pick_loop
sched_pick_next fuel s =
    let start = if s.cursor == 0 then s.run_queue_head else s.cursor in
    if s.run_queue_head == 0 then some (none, s) else elim (pick_loop fuel s start start) [
      | none ↦ none
      | some none ↦ some (none, s)
      | some (some t) ↦ some (some t, record s { cursor = t })
    ]

alive_loop : ℕ → Sched → ℕ → Option Bool
alive_loop zero s task = none
alive_loop (suc fuel) s task =
    let t = next_of s task in
    let rest = alive_loop fuel s t in
    if is_dead (s.task task).state
    then if t == s.run_queue_head then some false else rest
    else some true

unfoldable pub sched_any_alive : ℕ → Sched → Option Bool
unfolding alive_loop
sched_any_alive fuel s =
    if s.run_queue_head == 0 then some false else alive_loop fuel s s.run_queue_head

unfoldable pub sched_init : ℕ → Sched → Sched
sched_init task s = record s { run_queue_head = 0; scheduler_task = task }

abbrev pub set_next : Sched → ℕ → ℕ → Sched
set_next s t n = record s { task = update s.task t (record (s.task t) { next = n }) }

unfoldable pub sched_add_task : ℕ → Sched → Sched
sched_add_task task s =
    if task == 0
    then s
    else if s.run_queue_head == 0
    then set_next (record s { run_queue_head = task }) task task
    else set_next (set_next s task (next_of s s.run_queue_head)) s.run_queue_head task

unfoldable pub sched_get_current_task : Sched → ℕ
sched_get_current_task s = if s.current == 0 then s.scheduler_task else s.current

unfoldable pub sched_on_timer_tick : Sched → Sched
sched_on_timer_tick s = record s { need_resched = true }

unfoldable pub sched_exit_current : Sched → Sched
sched_exit_current s = record (set_state s s.current TaskState.dead) { need_resched = true }

unfoldable pub wake_one : ℕ → Task → Task
wake_one chan t =
    if is_blocked t.state && (t.chan == chan) then record t { state = TaskState.ready } else t

-- The body of the loop of `wakeup` on one task.
unfoldable pub wake_step : ℕ → ℕ → Sched → Sched
unfolding wake_one
wake_step chan task s = record s { task = update s.task task (wake_one chan (s.task task)) }

wakeup_loop : ℕ → ℕ → ℕ → Sched → Option Sched
wakeup_loop zero chan task s = none
wakeup_loop (suc fuel) chan task s =
    let s' = wake_step chan task s in
    let t = next_of s' task in
    let rest = wakeup_loop fuel chan t s' in if t == s.run_queue_head then some s' else rest

unfoldable pub wakeup : ℕ → ℕ → Sched → Option Sched
unfolding wakeup_loop
wakeup fuel chan s =
    if (chan == 0) || (s.run_queue_head == 0)
    then some s
    else wakeup_loop fuel chan s.run_queue_head s

-- `sched` up to the switch; `saved` is the frame that the switch leaves on the task's stack.
unfoldable pub sched : ℕ → Sched → Outcome
sched saved s =
    if s.irq_enabled
    then Outcome.panic
    else if s.scheduler_frame == 0
    then Outcome.panic
    else Outcome.ok (record s {
      task = update s.task s.current (record (s.task s.current) { switch_frame = saved });
    })

-- `sleep` up to the switch.
unfoldable pub sleep : ℕ → ℕ → ℕ → Sched → Outcome
unfolding sched spinlock_unlock
sleep saved chan lk s =
    let waiting = record (s.task s.current) { chan = chan; state = TaskState.blocked } in
    if (chan == 0) || (lk == 0)
    then Outcome.panic
    else if s.current == 0
    then Outcome.panic
    else sched saved
        (record s { task = update s.task s.current waiting; locked = spinlock_unlock s.locked lk })

-- The rest of `sleep`, when `task` is resumed.
unfoldable pub sleep_resumed : ℕ → ℕ → Sched → Outcome
unfolding spinlock_lock
sleep_resumed task lk s =
    let s' = record s { task = update s.task task (record (s.task task) { chan = 0 }) } in
    if s.irq_enabled then Outcome.panic else elim (spinlock_lock s'.locked lk) [
      | none ↦ Outcome.stuck
      | some locked ↦ Outcome.ok (record s' { locked = locked })
    ]

-- kernel/src/proc/task.c: may a task run on the frame, and is its stack whole?
unfoldable pub task_owns_frame : Sched → ℕ → ℕ → Bool
task_owns_frame s task frame =
    if (task == 0) || (frame == 0)
    then false
    else if (s.task task).kernel_stack_base == 0
    then true
    else kstack_contains (s.task task).kernel_stack_base frame

unfoldable pub task_stack_intact : Sched → ℕ → Bool
task_stack_intact s task =
    if task == 0
    then false
    else if (s.task task).kernel_stack_base == 0
    then true
    else kstack_guard_intact s.memory (s.task task).kernel_stack_base

-- What `sched_on_trap_exit` comes to: it returns a frame at once, or it gives up the CPU in `sched`.
pub data TrapExit : Type 0 where
  returned : ℕ → Sched → TrapExit
  switched : Sched → TrapExit
  panicked : TrapExit

-- The trap frame questions that kernel/src/arch answers.
pub record ArchFrames : Type 0 where
  pub from_user : ℕ → Bool
  pub user_frame : ℕ → ℕ

unfoldable pub sched_on_trap_exit : ArchFrames → ℕ → ℕ → Sched → TrapExit
unfolding task_owns_frame sched
sched_on_trap_exit arch saved frame s =
    let cur = s.task s.current in
    let kept = record s { task = update s.task s.current (record cur { trap_frame = frame }) } in
    let taken = record kept { need_resched = false } in
    let yielding =
      if is_running cur.state then set_state taken s.current TaskState.ready else taken in
    if s.current == 0
    then TrapExit.returned frame s
    else if not (task_owns_frame s s.current frame)
    then TrapExit.panicked
    else if arch.from_user frame && not (frame == arch.user_frame cur.kernel_stack_top)
    then TrapExit.panicked
    else if not s.need_resched
    then TrapExit.returned frame kept
    else elim (sched saved yielding) [
      | Outcome.ok s' ↦ TrapExit.switched s'
      | _ ↦ TrapExit.panicked
    ]

-- The rest of `sched_on_trap_exit`, when the task is resumed: the frame that it returns.
unfoldable pub trap_exit_resumed : Sched → ℕ
trap_exit_resumed s = (s.task s.current).trap_frame

unfoldable pub vmm_switch_context : ℕ → Sched → Sched
vmm_switch_context ctx s =
    if (ctx == 0) || (s.root_phys ctx == 0)
    then s
    else record s { vmm_current_context = ctx; user_root = s.root_phys ctx }

-- One round of the loop of `scheduler`, up to the switch to a task, or to what it does instead.
pub data Round : Type 0 where
  dispatched : ℕ → Sched → Round
  idle : Sched → Round
  shutdown : Sched → Round
  panicked : Round
  out_of_fuel : Round

-- The task that is switched to, with `saved` for the frame that the switch leaves behind.
start_task : ℕ → ℕ → Sched → Sched
unfolding vmm_switch_context
start_task saved next s =
    let t = s.task next in
    let running = record t { state = TaskState.running; switch_count = add64 t.switch_count 1 } in
    record (vmm_switch_context t.vmm_context (record s {
      current = next;
      task = update s.task next running;
      kernel_stack = t.kernel_stack_top;
    })) { scheduler_frame = saved }

-- What the round does with the choice.
after_pick : ℕ → ℕ → Option (Option ℕ × Sched) → Round
after_pick fuel saved none = Round.out_of_fuel
after_pick fuel saved (some (some next, s)) =
    if task_stack_intact s next
    then Round.dispatched next (start_task saved next s)
    else Round.panicked
after_pick fuel saved (some (none, s)) = elim (sched_any_alive fuel s) [
  | none ↦ Round.out_of_fuel
  | some alive ↦ if alive then Round.idle s else Round.shutdown s
]

unfoldable pub scheduler_round : ℕ → ℕ → Sched → Round
unfolding after_pick sched_pick_next start_task sched_any_alive task_stack_intact
scheduler_round fuel saved s = after_pick fuel saved (sched_pick_next fuel s)

-- `scheduler_task->switch_count++`
unfoldable pub count_switch : Sched → Sched
count_switch s =
    let t = s.task s.scheduler_task in
    record s {
      task = update s.task s.scheduler_task (record t { switch_count = add64 t.switch_count 1 });
    }

-- The rest of the round, when the task has switched back.
unfoldable pub scheduler_resumed : ℕ → Sched → Outcome
unfolding task_stack_intact count_switch
scheduler_resumed next s =
    let counted = count_switch s in
    if not (counted.current == next)
    then Outcome.panic
    else if not (task_stack_intact counted next)
    then Outcome.panic
    else Outcome.ok (record counted { current = 0 })
