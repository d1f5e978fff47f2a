-- ===== src/RingBuffer/Fifo.antt =====
-- What kernel/include/core/ring_buffer.h promises: a bounded FIFO that drops the newest byte on
-- overflow and leaves `*out` alone when it is empty.
use pros.Common.{
  ℕ, Bool, true, false, Option, none, some, List, [], ◌∷◌, ◌++◌, length, ◌==◌, if◌then◌else◌,
}

pub data Op : Type 0 where
  push : ℕ → Op
  pop : ℕ → Op

-- The verdict of a call, and what stands in `*out` after it.
abbrev pub Reply : Type 0
Reply = Bool × Option ℕ

unfoldable pub fifo_push : ℕ → List ℕ → ℕ → List ℕ × Bool
fifo_push capacity q byte = if length q == capacity then (q, false) else (q ++ (byte ∷ []), true)

unfoldable pub fifo_pop : List ℕ → ℕ → List ℕ × Option ℕ × Bool
fifo_pop [] old = ([], some old, false)
fifo_pop (x ∷ q) old = (q, some x, true)

unfoldable pub fifo_run : ℕ → List ℕ → List Op → List Reply
fifo_run capacity q [] = []
fifo_run capacity q (push byte ∷ ops) =
    let (q', done) = fifo_push capacity q byte in (done, none) ∷ fifo_run capacity q' ops
fifo_run capacity q (pop old ∷ ops) =
    let (q', out, done) = fifo_pop q old in (done, out) ∷ fifo_run capacity q' ops
