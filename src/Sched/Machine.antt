-- ===== src/Sched/Machine.antt =====
-- The scheduler of kernel/src/proc/sched.c as a machine: the scheduler thread, the tasks that it
-- dispatches, and what they and the interrupt handlers call, in any order.
use mathlib.Core.Path.{subst}
use mathlib.Core.Option.{some-injective}
use pros.Common.{
  ◌||◌, ℕ, zero, suc, ◌≡◌, inl, inr, refl, sym, ◌∙◌, Bool, true, false, Option, none, some, arith,
  ◌==◌, Bool-cases,
}
use pros.Sched.{
  Sched, TaskState, Outcome, TrapExit, Round, ArchFrames, is_running, next_of, wake_one, wake_step,
  wakeup_loop, wakeup, sched_pick_next, sched_on_timer_tick, sched_exit_current, sleep,
  sleep_resumed, sched_on_trap_exit, task_stack_intact, count_switch, scheduler_round, after_pick,
  scheduler_resumed, start_task, vmm_switch_context, sched_add_task,
}

-- Who has the CPU: the scheduler thread, a task that it dispatched, or a task that has called `sched`.
pub data Phase : Type 0 where
  scheduling : Phase
  executing : ℕ → Phase
  leaving : ℕ → Phase

-- The steps. Fuel and saved frames are whatever they are; an interrupt is a step of its own.
pub data Step : Phase → Sched → Phase → Sched → Type 0 where
  dispatch :
      (fuel saved next : ℕ) {s s' : Sched}
      → scheduler_round fuel saved s ≡ Round.dispatched next s'
      → Step Phase.scheduling s (Phase.executing next) s'
  idle :
      (fuel saved : ℕ) {s s' : Sched}
      → scheduler_round fuel saved s ≡ Round.idle s'
      → Step Phase.scheduling s Phase.scheduling s'
  tick : {p : Phase} {s : Sched} → Step p s p (sched_on_timer_tick s)
  wake : (fuel chan : ℕ) {p : Phase} {s s' : Sched} → wakeup fuel chan s ≡ some s' → Step p s p s'
  mask : (b : Bool) {p : Phase} {s : Sched} → Step p s p (record s { irq_enabled = b })
  add :
      (task : ℕ) {p : Phase} {s : Sched}
      → (s.task task).state ≡ TaskState.ready
      → Step p s p (sched_add_task task s)
  exit : (n : ℕ) {s : Sched} → Step (Phase.executing n) s (Phase.executing n) (sched_exit_current s)
  trap_return :
      (arch : ArchFrames) (saved frame out n : ℕ) {s s' : Sched}
      → sched_on_trap_exit arch saved frame s ≡ TrapExit.returned out s'
      → Step (Phase.executing n) s (Phase.executing n) s'
  trap_switch :
      (arch : ArchFrames) (saved frame n : ℕ) {s s' : Sched}
      → sched_on_trap_exit arch saved frame s ≡ TrapExit.switched s'
      → Step (Phase.executing n) s (Phase.leaving n) s'
  block :
      (saved chan lk n : ℕ) {s s' : Sched}
      → sleep saved chan lk s ≡ Outcome.ok s'
      → Step (Phase.executing n) s (Phase.leaving n) s'
  unblock :
      (lk n : ℕ) {s s' : Sched}
      → sleep_resumed n lk s ≡ Outcome.ok s'
      → Step (Phase.executing n) s (Phase.executing n) s'
  resume :
      (n : ℕ) {s s' : Sched}
      → scheduler_resumed n s ≡ Outcome.ok s'
      → Step (Phase.leaving n) s Phase.scheduling s'

pub data Run (p : Phase) (s : Sched) : Phase → Sched → Type 0 where
  here : Run p s p s
  next : {q r : Phase} {t u : Sched} → Run p s q t → Step q t r u → Run p s r u

abbrev pub runs : Sched → ℕ → Bool
runs s t = is_running (s.task t).state

-- Which tasks may be marked as running, and what `current` is, in each phase.
abbrev pub IsSafe : Phase → Sched → Type 0
IsSafe Phase.scheduling s = (s.current ≡ 0) × ((t : ℕ) → runs s t ≡ false)
IsSafe (Phase.executing n) s = (s.current ≡ n) × ((t : ℕ) → runs s t ≡ true → t ≡ n)
IsSafe (Phase.leaving n) s = (s.current ≡ n) × ((t : ℕ) → runs s t ≡ false)

-- A change of the tasks that marks none as running.
record Calm (s s' : Sched) : Type 0 where
  current_same : s'.current ≡ s.current
  running_was : (t : ℕ) → runs s' t ≡ true → runs s t ≡ true

Calm-IsSafe : (p : Phase) {s s' : Sched} → Calm s s' → IsSafe p s → IsSafe p s'
Calm-IsSafe Phase.scheduling c h =
    (c.current_same ∙ h.0, λ t. ground (arith, c.running_was t, h.1 t))
Calm-IsSafe (Phase.executing n) c h = (c.current_same ∙ h.0, λ t r. h.1 t (c.running_was t r))
Calm-IsSafe (Phase.leaving n) c h =
    (c.current_same ∙ h.0, λ t. ground (arith, c.running_was t, h.1 t))

Calm-trans : {s t u : Sched} → Calm s t → Calm t u → Calm s u
Calm-trans c d = record {
  current_same = d.current_same ∙ c.current_same;
  running_was = λ t r. c.running_was t (d.running_was t r);
}

wake_step-Calm : (chan a : ℕ) (s : Sched) → Calm s (wake_step chan a s)
unfolding wake_step wake_one
wake_step-Calm chan a s = record { current_same = refl; running_was = λ t. ground arith }

wakeup_loop-Calm :
    (fuel chan a : ℕ) (s : Sched) {s' : Sched} → wakeup_loop fuel chan a s ≡ some s' → Calm s s'
unfolding wakeup_loop
wakeup_loop-Calm zero chan a s e = cc
wakeup_loop-Calm (suc fuel) chan a s e =
    let s1 = wake_step chan a s in
    let c = wake_step-Calm chan a s in
    elim (Bool-cases (next_of s1 a == s.run_queue_head)) [
      | inl last ↦ subst (λ u. Calm s u) (some-injective _ _ (rw last at e)) c
      | inr more ↦ Calm-trans c (wakeup_loop-Calm fuel chan (next_of s1 a) s1 (rw more at e))
    ]

wakeup-Calm : (fuel chan : ℕ) (s : Sched) {s' : Sched} → wakeup fuel chan s ≡ some s' → Calm s s'
unfolding wakeup
wakeup-Calm fuel chan s e = elim (Bool-cases ((chan == 0) || (s.run_queue_head == 0))) [
  | inl nobody ↦
      subst (λ u. Calm s u) (some-injective _ _ (rw nobody at e))
        (record { current_same = refl; running_was = λ t r. r })
  | inr some_body ↦ wakeup_loop-Calm fuel chan s.run_queue_head s (rw some_body at e)
]

add-Calm :
    (task : ℕ) (s : Sched) → (s.task task).state ≡ TaskState.ready → Calm s (sched_add_task task s)
unfolding sched_add_task
add-Calm task s h = record { current_same = ground arith; running_was = λ t. ground arith }

exit-IsSafe :
    (n : ℕ) (s : Sched)
    → IsSafe (Phase.executing n) s
    → IsSafe (Phase.executing n) (sched_exit_current s)
unfolding sched_exit_current
exit-IsSafe n s h = (h.0, λ t. ground (arith, h.1 t))

trap_return-IsSafe :
    (arch : ArchFrames) (saved frame out n : ℕ) (s : Sched) {s' : Sched}
    → sched_on_trap_exit arch saved frame s ≡ TrapExit.returned out s'
    → IsSafe (Phase.executing n) s
    → IsSafe (Phase.executing n) s'
unfolding sched_on_trap_exit
trap_return-IsSafe arch saved frame out n s e h = (ground (arith), λ t. ground (arith, h.1 t))

trap_switch-IsSafe :
    (arch : ArchFrames) (saved frame n : ℕ) (s : Sched) {s' : Sched}
    → sched_on_trap_exit arch saved frame s ≡ TrapExit.switched s'
    → IsSafe (Phase.executing n) s
    → IsSafe (Phase.leaving n) s'
unfolding sched_on_trap_exit
trap_switch-IsSafe arch saved frame n s e h = (ground (arith), λ t. ground (arith, h.1 t))

sleep-IsSafe :
    (saved chan lk n : ℕ) (s : Sched) {s' : Sched}
    → sleep saved chan lk s ≡ Outcome.ok s'
    → IsSafe (Phase.executing n) s
    → IsSafe (Phase.leaving n) s'
unfolding sleep
sleep-IsSafe saved chan lk n s e h = (ground (arith), λ t. ground (arith, h.1 t))

sleep_resumed-IsSafe :
    (lk n : ℕ) (s : Sched) {s' : Sched}
    → sleep_resumed n lk s ≡ Outcome.ok s'
    → IsSafe (Phase.executing n) s
    → IsSafe (Phase.executing n) s'
unfolding sleep_resumed
sleep_resumed-IsSafe lk n s e h = (ground (arith), λ t. ground (arith, h.1 t))

resumed-IsSafe :
    (n : ℕ) (s : Sched) {s' : Sched}
    → scheduler_resumed n s ≡ Outcome.ok s'
    → IsSafe (Phase.leaving n) s
    → IsSafe Phase.scheduling s'
unfolding scheduler_resumed
resumed-IsSafe n s e h = (ground (arith), λ t. ground (arith, h.1 t))

-- A choice changes nothing but the cursor.
pick-Calm :
    (fuel : ℕ) (s : Sched) (o : Option ℕ) {s' : Sched}
    → sched_pick_next fuel s ≡ some (o, s')
    → (s'.task ≡ s.task) × (s'.current ≡ s.current)
unfolding sched_pick_next
pick-Calm fuel s o e = (ground arith, ground arith)

start_task-IsSafe :
    (saved n : ℕ) (s : Sched)
    → IsSafe Phase.scheduling s
    → IsSafe (Phase.executing n) (start_task saved n s)
unfolding start_task vmm_switch_context
start_task-IsSafe saved n s h = (ground arith, λ t. ground (arith, h.1 t))

after_pick-dispatched :
    (fuel saved n : ℕ) (o : Option (Option ℕ × Sched)) {s' : Sched}
    → after_pick fuel saved o ≡ Round.dispatched n s'
    → (s : Sched) × (o ≡ some (some n, s)) × (s' ≡ start_task saved n s)
unfolding after_pick
after_pick-dispatched fuel saved n none e = cc
after_pick-dispatched fuel saved n (some (some m, s)) e = (s, ground arith, ground arith)
after_pick-dispatched fuel saved n (some (none, s)) e = absurd (ground arith)

after_pick-idle :
    (fuel saved : ℕ) (o : Option (Option ℕ × Sched)) {s' : Sched}
    → after_pick fuel saved o ≡ Round.idle s'
    → o ≡ some (none, s')
unfolding after_pick
after_pick-idle fuel saved none e = cc
after_pick-idle fuel saved (some (some m, s)) e = ground arith
after_pick-idle fuel saved (some (none, s)) e = ground arith

scheduler_round-after_pick :
    (fuel saved : ℕ) (s : Sched)
    → scheduler_round fuel saved s ≡ after_pick fuel saved (sched_pick_next fuel s)
scheduler_round-after_pick fuel saved s = unfold scheduler_round in refl

dispatch-IsSafe :
    (fuel saved n : ℕ) (s : Sched) {s' : Sched}
    → scheduler_round fuel saved s ≡ Round.dispatched n s'
    → IsSafe Phase.scheduling s
    → IsSafe (Phase.executing n) s'
dispatch-IsSafe fuel saved n s e h =
    let e' = sym (scheduler_round-after_pick fuel saved s) ∙ e in
    let (s1, picked, started) = after_pick-dispatched fuel saved n (sched_pick_next fuel s) e' in
    let (tasks, cur) = pick-Calm fuel s (some n) picked in
    subst (λ u. IsSafe (Phase.executing n) u) (sym started)
      (start_task-IsSafe saved n s1 (cur ∙ h.0, λ t. rw tasks (h.1 t)))

idle-IsSafe :
    (fuel saved : ℕ) (s : Sched) {s' : Sched}
    → scheduler_round fuel saved s ≡ Round.idle s'
    → IsSafe Phase.scheduling s
    → IsSafe Phase.scheduling s'
idle-IsSafe fuel saved s e h =
    let e' = sym (scheduler_round-after_pick fuel saved s) ∙ e in
    let (tasks, cur) =
      pick-Calm fuel s none (after_pick-idle fuel saved (sched_pick_next fuel s) e') in
    (cur ∙ h.0, λ t. rw tasks (h.1 t))

Step-IsSafe : {p q : Phase} {s s' : Sched} → Step p s q s' → IsSafe p s → IsSafe q s'
Step-IsSafe (dispatch fuel saved n {s} e) h = dispatch-IsSafe fuel saved n s e h
Step-IsSafe (idle fuel saved {s} e) h = idle-IsSafe fuel saved s e h
Step-IsSafe (tick {p} {s}) h =
    Calm-IsSafe p {s = s}
      (record {
        current_same = unfold sched_on_timer_tick in refl;
        running_was = unfold sched_on_timer_tick in λ t r. r;
      })
      h
Step-IsSafe (wake fuel chan {p} {s} e) h = Calm-IsSafe p (wakeup-Calm fuel chan s e) h
Step-IsSafe (mask b {p} {s}) h =
    Calm-IsSafe p {s = s} (record { current_same = refl; running_was = λ t r. r }) h
Step-IsSafe (add task {p} {s} r) h = Calm-IsSafe p (add-Calm task s r) h
Step-IsSafe (exit n {s}) h = exit-IsSafe n s h
Step-IsSafe (trap_return arch saved frame out n {s} e) h =
    trap_return-IsSafe arch saved frame out n s e h
Step-IsSafe (trap_switch arch saved frame n {s} e) h = trap_switch-IsSafe arch saved frame n s e h
Step-IsSafe (block saved chan lk n {s} e) h = sleep-IsSafe saved chan lk n s e h
Step-IsSafe (unblock lk n {s} e) h = sleep_resumed-IsSafe lk n s e h
Step-IsSafe (resume n {s} e) h = resumed-IsSafe n s e h

-- From a state in which the scheduler thread has the CPU and no task is marked as running, however
-- dispatches, timer ticks, wakeups, new tasks, exits, trap exits and sleeps follow one another: while
-- the scheduler thread has the CPU, `current` is NULL and no task is marked as running; while a
-- dispatched task has it, `current` is that task and no other is marked as running; and once the
-- task has called `sched`, `current` is still that task and none is marked as running.
pub Run-IsSafe :
    {s : Sched} {p : Phase} {s' : Sched}
    → Run Phase.scheduling s p s'
    → IsSafe Phase.scheduling s
    → IsSafe p s'
Run-IsSafe here h = h
Run-IsSafe (next r st) h = Step-IsSafe st (Run-IsSafe r h)

resumed_current :
    (n : ℕ) (s : Sched)
    → s.current ≡ n
    → task_stack_intact s n ≡ true
    → (s' : Sched) × (scheduler_resumed n s ≡ Outcome.ok s')
unfolding scheduler_resumed task_stack_intact
resumed_current n s h k = (record (count_switch s) { current = 0 }, ground arith)

-- So the scheduler thread never finds itself back from a task that it did not dispatch: when a
-- dispatched task has called `sched` and its stack guard is whole, the rest of the round does not
-- panic.
pub scheduler_resumed-ok :
    {s : Sched} (n : ℕ) {s' : Sched}
    → Run Phase.scheduling s (Phase.leaving n) s'
    → IsSafe Phase.scheduling s
    → task_stack_intact s' n ≡ true
    → (s'' : Sched) × (scheduler_resumed n s' ≡ Outcome.ok s'')
scheduler_resumed-ok n {s'} r h k = resumed_current n s' (Run-IsSafe r h).0 k
