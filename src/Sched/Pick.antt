-- ===== src/Sched/Pick.antt =====
-- `sched_pick_next` of kernel/src/proc/sched.c: it takes the first ready task behind the cursor, and
-- each choice brings every other ready task nearer to its turn.
use pros.Common.{
  ℕ, zero, suc, ◌<◌, ◌≡◌, ◌≢◌, inl, inr, refl, Option, none, some, List, [], ◌∷◌, arith, Seg, ◌==◌,
  if◌then◌else◌, length, Bool-cases, eq→==, ne→==,
}
use pros.Sched.{Sched, next_of, is_ready, pick_loop, sched_pick_next}
use pros.Sched.Ring.{IsRing, order}

-- The first task of a list that is ready.
unfoldable pub first_ready : Sched → List ℕ → Option ℕ
first_ready s [] = none
first_ready s (t ∷ ts) = if is_ready (s.task t).state then some t else first_ready s ts

-- Where round robin resumes, and the run queue seen from there.
pub record IsQueue (s : Sched) (start : ℕ) (others : List ℕ) : Type 0 where
  pub head_set : s.run_queue_head ≢ 0
  pub resumes : start ≡ (if s.cursor == 0 then s.run_queue_head else s.cursor)
  pub is_ring : IsRing s start others

pick_loop-first_ready :
    (fuel : ℕ) (s : Sched) (task start : ℕ) (others : List ℕ)
    → length others < fuel
    → Seg (next_of s) start (next_of s task) others
    → pick_loop fuel s task start ≡ some (first_ready s (order start others))
unfolding pick_loop first_ready
pick_loop-first_ready zero s task start others h r = absurd (omega arith)
pick_loop-first_ready (suc fuel) s task start [] h r =
    let back = eq→== start start refl in
    rw (r, back) (elim (Bool-cases (is_ready (s.task start).state)) [ inl e ↦ rw e | inr e ↦ rw e ])
pick_loop-first_ready (suc fuel) s task start (x ∷ xs) h r =
    let on = ne→== x start r.1 in
    let rest = pick_loop-first_ready fuel s x start xs (omega arith) r.2 in
    rw (r.0, on, rest)
      (elim (Bool-cases (is_ready (s.task x).state)) [ inl e ↦ rw e | inr e ↦ rw e ])

-- The state after a choice.
abbrev pub chose : Sched → Option ℕ → Sched
chose s none = s
chose s (some t) = record s { cursor = t }

-- On a run queue, with fuel for one round of it, `sched_pick_next` returns the first ready task in
-- the order behind the cursor (behind the head while no task was chosen yet), the one at the cursor
-- coming last, and NULL if no task of the queue is ready; it changes nothing but the cursor, which
-- it sets to the chosen task.
pub sched_pick_next-first_ready :
    (fuel : ℕ) (s : Sched) (start : ℕ) (others : List ℕ)
    → IsQueue s start others
    → length others < fuel
    → sched_pick_next fuel s
      ≡ some (first_ready s (order start others), chose s (first_ready s (order start others)))
unfolding sched_pick_next
sched_pick_next-first_ready fuel s start others q h =
    let set = ne→== s.run_queue_head 0 q.head_set in
    let found = pick_loop-first_ready fuel s start start others h q.is_ring.ring in
    rw (set, ← q.resumes, found) (step (first_ready s (order start others)))
  where
    step :
        (o : Option ℕ)
        → (elim o as (λ _. Option (Option ℕ × Sched)) [
          | none ↦ some (none, s)
          | some t ↦ some (some t, record s { cursor = t })
        ])
          ≡ some (o, chose s o)
    step none = refl
    step (some t) = refl
