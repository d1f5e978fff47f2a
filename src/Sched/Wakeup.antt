-- ===== src/Sched/Wakeup.antt =====
-- `wakeup` of kernel/src/proc/sched.c: exactly the tasks of the run queue that sleep on the channel
-- become ready.
use mathlib.Core.Path.{subst}
use pros.Common.{
  ◌⊎◌, false, ℕ, zero, suc, ◌<◌, ◌≡◌, ◌≢◌, inl, inr, refl, sym, ap, ◌∙◌, true, some, List, [], ◌∷◌,
  arith, Seg, Seg-ext, Seg-Avoids, has, Avoids-has, Avoids, Distinct, update_ne, update_eq, ◌==◌,
  if◌then◌else◌, length, Bool-cases, eq→==, ne→==, ==→eq, ==→ne,
}
use pros.Sched.{
  Sched, Task, TaskState, is_blocked, next_of, wake_one, wake_step, wakeup_loop, wakeup,
}
use pros.Sched.Ring.{IsRing}

-- The tasks after `wake_one` on the members of `ts`.
abbrev woken : ℕ → List ℕ → (ℕ → Task) → ℕ → Task
woken chan ts task a = if has a ts then wake_one chan (task a) else task a

wake_one-next : (chan : ℕ) (t : Task) → (wake_one chan t).next ≡ t.next
unfolding wake_one
wake_one-next chan t = ground arith

wake_step-next : (chan t : ℕ) (s : Sched) (a : ℕ) → next_of s a ≡ next_of (wake_step chan t s) a
unfolding wake_step
wake_step-next chan t s a = elim (Bool-cases (a == t)) [
  | inl e ↦ rw (==→eq a t e) (
      sym (
        ap (λ (k : Task). k.next) (update_eq s.task t (wake_one chan (s.task t)))
        ∙ wake_one-next chan (s.task t)))
  | inr e ↦
      sym
        (ap (λ (k : Task). k.next) (update_ne s.task t (wake_one chan (s.task t)) a (==→ne a t e)))
]

woken-cons :
    (chan t : ℕ) (ts : List ℕ) (s : Sched) (a : ℕ)
    → Avoids t ts
    → woken chan ts (wake_step chan t s).task a ≡ woken chan (t ∷ ts) s.task a
unfolding wake_step
woken-cons chan t ts s a out = elim (Bool-cases (a == t)) [
  | inl e ↦ let same = ==→eq a t e in rw (same, Avoids-has t ts out, eq→== t t refl)
  | inr e ↦ rw e
]

wake_step-Seg :
    (chan t : ℕ) (s : Sched) (x : ℕ) (xs : List ℕ)
    → Seg (next_of s) s.run_queue_head (next_of s x) xs
    → Seg (next_of (wake_step chan t s)) s.run_queue_head (next_of (wake_step chan t s) x) xs
wake_step-Seg chan t s x xs r = rw (← wake_step-next chan t s x) (
    Seg-ext (next_of s) (next_of (wake_step chan t s)) s.run_queue_head (next_of s x) xs
      (wake_step-next chan t s) r)

wake_step-record :
    (chan t : ℕ) (s : Sched) (f : ℕ → Task)
    → (record (wake_step chan t s) { task = f } ≡ record s { task = f })
      × ((wake_step chan t s).run_queue_head ≡ s.run_queue_head)
unfolding wake_step
wake_step-record chan t s f = (refl, refl)

wakeup_loop-woken :
    (fuel chan t : ℕ) (s : Sched) (ts : List ℕ)
    → length ts < fuel
    → Seg (next_of s) s.run_queue_head (next_of s t) ts
    → Distinct (t ∷ ts)
    → (task' : ℕ → Task) × (wakeup_loop fuel chan t s ≡ some (record s { task = task' }))
      × ((a : ℕ) → task' a ≡ woken chan (t ∷ ts) s.task a)
unfolding wakeup_loop wake_step
wakeup_loop-woken zero chan t s ts h r d = absurd (omega arith)
wakeup_loop-woken (suc fuel) chan t s [] h r d =
    let s' = wake_step chan t s in
    let last : (next_of s' t == s.run_queue_head) ≡ true =
      eq→== (next_of s' t) s.run_queue_head (sym (wake_step-next chan t s t) ∙ r) in
    (s'.task, rw last (unfold wake_step in refl), λ a. woken-cons chan t [] s a tt)
wakeup_loop-woken (suc fuel) chan t s (x ∷ xs) h r d =
    let s' = wake_step chan t s in
    let at : next_of s' t ≡ x = sym (wake_step-next chan t s t) ∙ r.0 in
    let on = ne→== x s.run_queue_head r.1 in
    let same_head = (wake_step-record chan t s s.task).1 in
    let r' = rw (← same_head) at (wake_step-Seg chan t s x xs r.2) in
    let (task', call, all) = wakeup_loop-woken fuel chan x s' xs (omega arith) r' d.1 in
    (
      task',
      rw (at, on) (call ∙ ap some (wake_step-record chan t s task').0),
      λ a. all a ∙ woken-cons chan t (x ∷ xs) s a d.0,
    )

-- The task is blocked on the channel, and becomes ready with nothing else of it changed; or it is not,
-- and stays as it was.
abbrev pub Woken : ℕ → Task → Task → Type 0
Woken chan t t' =
    ((t.state ≡ TaskState.blocked) × (t.chan ≡ chan) × (t' ≡ record t { state = TaskState.ready }))
    ⊎ (((t.state ≢ TaskState.blocked) ⊎ (t.chan ≢ chan)) × (t' ≡ t))

-- What a wakeup of the members of `ts` makes of each task.
abbrev pub WokenAt : ℕ → List ℕ → (ℕ → Task) → (ℕ → Task) → ℕ → Type 0
WokenAt chan ts task task' a =
    ((has a ts ≡ true) × Woken chan (task a) (task' a)) ⊎ ((has a ts ≡ false) × (task' a ≡ task a))

blocked_lem :
    (st : TaskState)
    → ((is_blocked st ≡ true) × (st ≡ TaskState.blocked))
      ⊎ ((is_blocked st ≡ false) × (st ≢ TaskState.blocked))
blocked_lem TaskState.dead = inr (refl, λ e. cc)
blocked_lem TaskState.ready = inr (refl, λ e. cc)
blocked_lem TaskState.running = inr (refl, λ e. cc)
blocked_lem TaskState.blocked = inl (refl, refl)
blocked_lem TaskState.zombie = inr (refl, λ e. cc)

wake_one-Woken : (chan : ℕ) (t : Task) → Woken chan t (wake_one chan t)
unfolding wake_one
wake_one-Woken chan t = elim (blocked_lem t.state) [
  | inr (calm, ne) ↦ inr (inl ne, rw calm refl)
  | inl (blocked, is) ↦ elim (Bool-cases (t.chan == chan)) [
    | inl on ↦ inl (is, ==→eq t.chan chan on, rw (blocked, on) refl)
    | inr off ↦ inr (inr (==→ne t.chan chan off), rw (blocked, off) refl)
  ]
]

woken-WokenAt :
    (chan : ℕ) (ts : List ℕ) (task task' : ℕ → Task) (a : ℕ)
    → task' a ≡ woken chan ts task a
    → WokenAt chan ts task task' a
woken-WokenAt chan ts task task' a e = elim (Bool-cases (has a ts)) [
  | inl here ↦
      let is : wake_one chan (task a) ≡ task' a =
        sym (e ∙ ap (λ b. if b then wake_one chan (task a) else task a) here) in
      inl (here, subst (Woken chan (task a)) is (wake_one-Woken chan (task a)))
  | inr off ↦ inr (off, e ∙ ap (λ b. if b then wake_one chan (task a) else task a) off)
]

-- On a run queue, with fuel for one round of it, `wakeup` on a channel changes exactly the tasks of
-- the queue that are blocked on that channel: each of them becomes ready. All else, its wait channel
-- included, stays as it was; a NULL channel wakes nobody.
pub wakeup-woken :
    (fuel chan : ℕ) (s : Sched) (others : List ℕ)
    → IsRing s s.run_queue_head others
    → length others < fuel
    → chan ≢ 0
    → (wakeup fuel 0 s ≡ some s)
      × ((task' : ℕ → Task) × (wakeup fuel chan s ≡ some (record s { task = task' }))
          × ((a : ℕ) → WokenAt chan (s.run_queue_head ∷ others) s.task task' a))
unfolding wakeup
wakeup-woken fuel chan s others r enough set =
    let outs = Seg-Avoids (next_of s) s.run_queue_head (next_of s s.run_queue_head) others r.ring in
    let (task', call, all) =
      wakeup_loop-woken fuel chan s.run_queue_head s others enough r.ring (outs, r.distinct) in
    (
      refl,
      (
        task',
        rw (ne→== chan 0 set, ne→== s.run_queue_head 0 r.start_set) call,
        λ a. woken-WokenAt chan (s.run_queue_head ∷ others) s.task task' a (all a),
      ),
    )
