-- ===== src/Sched/Fair.antt =====
-- Round robin is fair (kernel/src/proc/sched.c): a choice of `sched_pick_next` is a ready task, and
-- takes every other ready task nearer to its turn.
use pros.Common.{
  ℕ, ◌<◌, ◌≡◌, ◌≢◌, ◌⊎◌, inl, inr, refl, sym, ap, ◌∙◌, true, some, List, [], ◌∷◌, ◌++◌, arith,
  append_assoc, length, length-append, Bool-cases, ne→==,
}
use pros.Sched.{Sched, is_ready, sched_pick_next}
use pros.Sched.Ring.{IsRing, order, IsRing-rotate}
use pros.Sched.Pick.{IsQueue, first_ready, sched_pick_next-first_ready}

-- What is found ahead of a ready task `t`, or `t` itself.
first_ready-before :
    (s : Sched) (pre post : List ℕ) (t : ℕ)
    → is_ready (s.task t).state ≡ true
    → (first_ready s (pre ++ (t ∷ post)) ≡ some t)
      ⊎ ((front : List ℕ) × (x : ℕ) × (mid : List ℕ) × (pre ≡ front ++ (x ∷ mid))
          × (first_ready s (pre ++ (t ∷ post)) ≡ some x)
          × (is_ready (s.task x).state ≡ true))
unfolding first_ready
first_ready-before s [] post t h = inl (rw h)
first_ready-before s (y ∷ pre) post t h = elim (Bool-cases (is_ready (s.task y).state)) [
  | inl e ↦ inr ([], y, pre, refl, rw e, e)
  | inr e ↦ elim (first_ready-before s pre post t h) [
    | inl found ↦ inl (rw e found)
    | inr (front, x, mid, split, found, ready) ↦
        inr (y ∷ front, x, mid, ap (λ l. y ∷ l) split, rw e found, ready)
  ]
]

-- A member of `xs ++ [a]` that something comes after is a member of `xs`.
split_snoc :
    (xs front mid post : List ℕ) (a x t : ℕ)
    → xs ++ (a ∷ []) ≡ front ++ (x ∷ (mid ++ (t ∷ post)))
    → (q : List ℕ) × (xs ≡ front ++ (x ∷ q)) × (q ++ (a ∷ []) ≡ mid ++ (t ∷ post))
split_snoc [] [] [] post a x t e = cc
split_snoc [] [] (m ∷ mid) post a x t e = cc
split_snoc [] (f ∷ []) mid post a x t e = cc
split_snoc [] (f ∷ g ∷ front) mid post a x t e = cc
split_snoc (y ∷ xs) [] mid post a x t e = (xs, cc, cc)
split_snoc (y ∷ xs) (f ∷ front) mid post a x t e =
    let tail : xs ++ (a ∷ []) ≡ front ++ (x ∷ (mid ++ (t ∷ post))) = cc in
    let same : y ≡ f = cc in
    let (q, split, rest) = split_snoc xs front mid post a x t tail in (q, rw (same, split), rest)

-- Moving the cursor does not touch the ring.
chose-IsQueue :
    (s : Sched) (x : ℕ) (others : List ℕ)
    → s.run_queue_head ≢ 0
    → IsRing s x others
    → IsQueue (record s { cursor = x }) x others
chose-IsQueue s x others head r = record {
  head_set = head;
  resumes = rw (ne→== x 0 r.start_set);
  is_ring = record {
    ring = r.ring;
    distinct = r.distinct;
    start_set = r.start_set;
    others_set = r.others_set;
  };
}

rotated_order :
    (q front mid post : List ℕ) (a x t : ℕ)
    → q ++ (a ∷ []) ≡ mid ++ (t ∷ post)
    → order x (q ++ (a ∷ front)) ≡ mid ++ (t ∷ (post ++ (front ++ (x ∷ []))))
rotated_order q front mid post a x t e =
    append_assoc q (a ∷ front) (x ∷ [])
    ∙ sym (append_assoc q (a ∷ []) (front ++ (x ∷ [])))
    ∙ ap (λ l. l ++ (front ++ (x ∷ []))) e
    ∙ append_assoc mid (t ∷ post) (front ++ (x ∷ []))

-- If the task `t` is ready, with the tasks `pre` ahead of it in round-robin order, then a call of
-- `sched_pick_next` chooses a ready task: `t` itself, or one after whose choice `t` has fewer tasks
-- ahead of it, on the same run queue seen from the chosen task.
pub sched_pick_next-fair :
    (fuel : ℕ) (s : Sched) (start : ℕ) (others pre post : List ℕ) (t : ℕ)
    → IsQueue s start others
    → length others < fuel
    → order start others ≡ pre ++ (t ∷ post)
    → is_ready (s.task t).state ≡ true
    → (x : ℕ) × (sched_pick_next fuel s ≡ some (some x, record s { cursor = x }))
      × (is_ready (s.task x).state ≡ true)
      × ((x ≡ t)
          ⊎ ((others' : List ℕ) × (pre' : List ℕ) × (post' : List ℕ) × IsQueue
                (record s { cursor = x })
                x
                others'
              × (order x others' ≡ pre' ++ (t ∷ post'))
              × (length pre' < length pre)))
sched_pick_next-fair fuel s start others pre post t q enough place ready =
    let call = sched_pick_next-first_ready fuel s start others q enough in
    elim (first_ready-before s pre post t ready) [
      | inl found ↦ (t, rw (place, found) at call, ready, inl refl)
      | inr (front, x, mid, split, found, ready') ↦
          let whole : order start others ≡ front ++ (x ∷ (mid ++ (t ∷ post))) =
            place ∙ ap (λ l. l ++ (t ∷ post)) split ∙ append_assoc front (x ∷ mid) (t ∷ post) in
          let (r, others_split, rest) = split_snoc others front mid post start x t whole in
          let ring : IsRing s start (front ++ (x ∷ r)) = rw (← others_split) q.is_ring in
          let turned = IsRing-rotate s start x front r ring in
          let fewer : length mid < length pre =
            omega (arith, ap length split, length-append front (x ∷ mid)) in
          (
            x,
            rw (place, found) at call,
            ready',
            inr (
              r ++ (start ∷ front),
              mid,
              post ++ (front ++ (x ∷ [])),
              chose-IsQueue s x (r ++ (start ∷ front)) q.head_set turned,
              rotated_order r front mid post start x t rest,
              fewer,
            ),
          )
    ]
