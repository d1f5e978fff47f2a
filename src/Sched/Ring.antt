-- ===== src/Sched/Ring.antt =====
-- The circular run queue of kernel/src/proc/sched.c, as the list of its tasks.
use pros.Common.{
  ℕ, ◌≢◌, sym, List, [], ◌∷◌, ◌++◌, Seg, Seg-rotate, Seg-join, Avoids, Avoids-append, Distinct,
  Distinct-around, All-append, Apart-sym, Apart-cons, Distinct-split, Distinct-join, Seg-Avoids,
}
use pros.Sched.{Sched, next_of}

-- From the task `start` the `next` fields lead through the tasks `others`, no two of them the same
-- and none NULL, back to `start`.
pub record IsRing (s : Sched) (start : ℕ) (others : List ℕ) : Type 0 where
  pub ring : Seg (next_of s) start (next_of s start) others
  pub distinct : Distinct others
  pub start_set : start ≢ 0
  pub others_set : Avoids 0 others

-- The tasks in the order in which round robin looks at them from `start` on.
abbrev pub order : ℕ → List ℕ → List ℕ
order start others = others ++ (start ∷ [])

-- The run queue entered at another of its tasks.
pub IsRing-rotate :
    (s : Sched) (c d : ℕ) (p q : List ℕ) → IsRing s c (p ++ (d ∷ q)) → IsRing s d (q ++ (c ∷ p))
IsRing-rotate s c d p q r =
    let (dp, dq, apart) = Distinct-split p (d ∷ q) r.distinct in
    let (before, after) = Distinct-around d p q r.distinct in
    let (front, ne, back) = Seg-rotate (next_of s) c d (next_of s c) p q r.ring before in
    let outs = Seg-Avoids (next_of s) c (next_of s c) (p ++ (d ∷ q)) r.ring in
    let (out_p, out_dq) = Avoids-append c p (d ∷ q) outs in
    let (set_p, set_dq) = Avoids-append 0 p (d ∷ q) r.others_set in
    let mixed = Apart-sym p (d ∷ q) apart in
    record {
      ring = Seg-join (next_of s) c d (next_of s d) q p back after (λ e. ne (sym e)) front;
      distinct = Distinct-join q (c ∷ p) dq.1 (out_p, dp) (Apart-cons c q p out_dq.1 mixed.1);
      start_set = set_dq.0;
      others_set = All-append (λ x. x ≢ 0) q (c ∷ p) set_dq.1 (r.start_set, set_p);
    }
