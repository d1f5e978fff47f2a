-- ===== src/Sched/Queue.antt =====
-- The run queue of kernel/src/proc/sched.c: adding a task, and whether any task is alive.
use pros.Common.{
  ℕ, zero, suc, ◌<◌, ◌≡◌, ◌≢◌, inl, inr, Bool, false, not, ◌||◌, some, List, [], ◌∷◌, arith, Seg,
  Seg-ext, Seg-update, Seg-Avoids, Avoids, update, update_ne, update_eq, length, Bool-cases, eq→==,
  ne→==,
}
use pros.Sched.{Sched, next_of, is_dead, alive_loop, sched_any_alive, sched_add_task}
use pros.Sched.Ring.{IsRing}

-- Is some task of a list not dead?
any_alive : Sched → List ℕ → Bool
any_alive s [] = false
any_alive s (t ∷ ts) = not (is_dead (s.task t).state) || any_alive s ts

alive_loop-any_alive :
    (fuel : ℕ) (s : Sched) (t : ℕ) (ts : List ℕ)
    → length ts < fuel
    → Seg (next_of s) s.run_queue_head (next_of s t) ts
    → alive_loop fuel s t ≡ some (any_alive s (t ∷ ts))
unfolding alive_loop any_alive
alive_loop-any_alive zero s t ts h r = absurd (omega arith)
alive_loop-any_alive (suc fuel) s t [] h r =
    let last = eq→== (next_of s t) s.run_queue_head r in
    rw last (elim (Bool-cases (is_dead (s.task t).state)) [ inl e ↦ rw e | inr e ↦ rw e ])
alive_loop-any_alive (suc fuel) s t (x ∷ xs) h r =
    let on = ne→== x s.run_queue_head r.1 in
    let rest = alive_loop-any_alive fuel s x xs (omega arith) r.2 in
    rw (r.0, on, rest)
      (elim (Bool-cases (is_dead (s.task t).state)) [ inl e ↦ rw e | inr e ↦ rw e ])

-- On a run queue, with fuel for one round of it, `sched_any_alive` says whether some task of the
-- queue is not dead.
sched_any_alive-any_alive :
    (fuel : ℕ) (s : Sched) (others : List ℕ)
    → IsRing s s.run_queue_head others
    → length others < fuel
    → sched_any_alive fuel s ≡ some (any_alive s (s.run_queue_head ∷ others))
unfolding sched_any_alive
sched_any_alive-any_alive fuel s others r h =
    rw (ne→== s.run_queue_head 0 r.start_set)
      (alive_loop-any_alive fuel s s.run_queue_head others h r.ring)

-- The links after `sched_add_task` on a queue that is not empty.
abbrev linked : Sched → ℕ → ℕ → ℕ
linked s task = update (update (next_of s) task (next_of s s.run_queue_head)) s.run_queue_head task

add_links :
    (s : Sched) (task a : ℕ)
    → task ≢ 0
    → s.run_queue_head ≢ 0
    → linked s task a ≡ next_of (sched_add_task task s) a
unfolding sched_add_task
add_links s task a h k = ground arith

add_head :
    (s : Sched) (task : ℕ)
    → s.run_queue_head ≢ 0
    → (sched_add_task task s).run_queue_head ≡ s.run_queue_head
unfolding sched_add_task
add_head s task h = ground arith

linked-Seg :
    (s : Sched) (task : ℕ) (others : List ℕ)
    → task ≢ s.run_queue_head
    → Avoids task others
    → Seg (next_of s) s.run_queue_head (next_of s s.run_queue_head) others
    → Seg (linked s task) s.run_queue_head (linked s task s.run_queue_head) (task ∷ others)
linked-Seg s task others ne out r =
    let head = s.run_queue_head in
    let inner = update (next_of s) task (next_of s head) in
    let outs = Seg-Avoids (next_of s) head (next_of s head) others r in
    (
      update_eq inner head task,
      ne,
      rw (update_ne inner head task task ne, update_eq (next_of s) task (next_of s head))
          (Seg-update inner head (next_of s head) head task others outs
            (Seg-update (next_of s) head (next_of s head) task (next_of s head) others out r)),
    )

-- `sched_add_task` of a task that is not in the run queue puts it behind the head of the queue, which
-- stays a ring with the same head and the same other tasks in the same order.
pub sched_add_task-IsRing :
    (s : Sched) (task : ℕ) (others : List ℕ)
    → task ≢ 0
    → IsRing s s.run_queue_head others
    → task ≢ s.run_queue_head
    → Avoids task others
    → ((sched_add_task task s).run_queue_head ≡ s.run_queue_head)
      × IsRing (sched_add_task task s) s.run_queue_head (task ∷ others)
sched_add_task-IsRing s task others set r ne out =
    let links = λ (a : ℕ). add_links s task a set r.start_set in
    let seg = linked-Seg s task others ne out r.ring in
    (
      add_head s task r.start_set,
      record {
        ring = rw (← links s.run_queue_head) (
            Seg-ext (linked s task) (next_of (sched_add_task task s)) s.run_queue_head
              (linked s task s.run_queue_head) (task ∷ others) links seg);
        distinct = (out, r.distinct);
        start_set = r.start_set;
        others_set = (set, r.others_set);
      },
    )

-- On an empty queue the task becomes the head, alone in the ring.
pub sched_add_task-empty :
    (s : Sched) (task : ℕ)
    → task ≢ 0
    → s.run_queue_head ≡ 0
    → ((sched_add_task task s).run_queue_head ≡ task) × IsRing (sched_add_task task s) task []
unfolding sched_add_task
sched_add_task-empty s task set empty =
    (ground arith, record { ring = ground arith; distinct = tt; start_set = set; others_set = tt })
