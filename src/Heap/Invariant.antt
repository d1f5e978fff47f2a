-- ===== src/Heap/Invariant.antt =====
-- The heap of kernel/src/mm/heap.c and the page allocator under it: no memory is given twice.
use pros.Common.{ℕ, ◌+◌, ◌%◌, ◌<◌, ◌≡◌, true, List, has, u64_mod}
use pros.Heap.Blocks.{IsBlocks, Clear}
use pros.Pmm.{page_size}
use pros.Pmm.FreeList.{Holds}
use pros.Heap.{Heap}

-- The blocks `bs` of a heap and the free pages `frees` of the allocator: the blocks are apart from
-- each other and from the pages. No page is the last of the address space.
pub record IsHeap (hhdm : ℕ) (h : Heap) (bs frees : List ℕ) : Type 0 where
  pub blocks : IsBlocks h.block h.heap_block_list bs
  pub pages : Holds hhdm h.pmm frees
  pub placed : (x : ℕ) → has x frees ≡ true → (x % page_size ≡ 0) × (x + page_size < u64_mod)
  pub clear : (x : ℕ) → has x frees ≡ true → Clear x (x + page_size) h.block bs
