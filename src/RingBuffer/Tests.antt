-- ===== src/RingBuffer/Tests.antt =====
-- The ring of kernel/src/core/ring_buffer.c at concrete inputs.
use pros.Common.{◌≡◌, refl, true, false, none, some, List, [], ◌∷◌, arith}
use pros.RingBuffer.{RingBuffer, run}
use pros.RingBuffer.Fifo.{Op, fifo_run}
use pros.RingBuffer.Refine.{IsValid, run_refines}

-- 8, then 9, round the end of a storage of three bytes.
abbrev wrapped : RingBuffer
wrapped = record { buf = 9 ∷ 7 ∷ 8 ∷ []; capacity = 3; head = 2; tail = 1; count = 2 }

abbrev script : List Op
script = Op.push 1 ∷ Op.push 2 ∷ Op.pop 0 ∷ Op.pop 0 ∷ Op.pop 0 ∷ Op.pop 77 ∷ []

wrapped-IsValid : IsValid wrapped
wrapped-IsValid = omega arith

run-wrapped :
    run (some wrapped) script
    ≡ (true, none)
      ∷ (false, none)
      ∷ (true, some 8)
      ∷ (true, some 9)
      ∷ (true, some 1)
      ∷ (false, some 77)
      ∷ []
unfolding run
run-wrapped = refl

run_refines_example : run (some wrapped) script ≡ fifo_run 3 (8 ∷ 9 ∷ []) script
run_refines_example = run_refines script wrapped-IsValid
