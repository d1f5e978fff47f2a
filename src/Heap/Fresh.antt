-- ===== src/Heap/Fresh.antt =====
-- The pages that the heap of kernel/src/mm/heap.c gets from the page allocator: where they are.
use pros.Common.{
  ℕ, zero, suc, ◌+◌, ◌-◌, ◌*◌, ◌%◌, ◌≤◌, ◌<◌, ◌≡◌, refl, inl, inr, true, List, arith, has, ◌==◌,
  Bool-cases, ==→ne, eq→==,
}
use pros.Heap.Blocks.{Clear}
use pros.Pmm.{page_size}
use pros.Pmm.FreeList.{down}
use pros.Heap.{Block, heap_header_size}

-- Pages that each lie clear of the blocks lie clear of them together.
pub down-Clear :
    (mem : ℕ → Block) (bs : List ℕ) (k top : ℕ)
    → k * page_size ≤ top
    → ((x : ℕ) → has x (down top (suc k)) ≡ true → Clear x (x + page_size) mem bs)
    → Clear (top - k * page_size) (top + page_size) mem bs
unfolding down
down-Clear mem bs zero top h clear a i = let t = clear top (ground arith) a i in ground (arith, t)
down-Clear mem bs (suc k) top h clear a i =
    let here = clear top (ground arith) a i in
    let rest =
      down-Clear mem bs k (top - page_size) (omega arith) (λ x j. clear x (ground (arith, j))) a
        i in
    let size : 0 < heap_header_size + (mem a).size = omega arith in ground (arith, here, rest, h)

-- The page at an address between the lowest and the highest one is one of them.
pub down-has :
    (k top x : ℕ)
    → k * page_size ≤ top
    → top % page_size ≡ 0
    → x % page_size ≡ 0
    → top - k * page_size ≤ x
    → x ≤ top
    → has x (down top (suc k)) ≡ true
unfolding down
down-has zero top x h t e lo hi = let same = eq→== x top (omega arith) in rw same refl
down-has (suc k) top x h t e lo hi = elim (Bool-cases (x == top)) [
  | inl same ↦ rw same refl
  | inr other ↦
      let ne = ==→ne x top other in
      rw other
        (down-has k (top - page_size) x (omega arith) (omega arith) e (omega arith) (omega arith))
]
