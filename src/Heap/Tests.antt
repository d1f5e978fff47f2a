-- ===== src/Heap/Tests.antt =====
-- The heap of kernel/src/mm/heap.c at concrete inputs: a block in use, the rest of its page, a free page.
use pros.Common.{
  ℕ, ◌+◌, ◌≤◌, ◌≡◌, ◌⊎◌, refl, true, false, some, List, [], ◌∷◌, arith, ◌==◌, if◌then◌else◌,
}
use pros.Heap.{Block, Heap, heap_header_size, kmalloc, kfree, heap_block_split, heap_block_coalesce}
use pros.Heap.Realloc.{krealloc, kcalloc, shrink}
use pros.Heap.Blocks.{IsBlocks, end_of}
use pros.Heap.Invariant.{IsHeap}
use pros.Heap.Alloc.{Gives, NoMemory, kmalloc_lem, kmalloc-apart}
use pros.Heap.Free.{Freed, kfree_lem}

abbrev hhdm : ℕ
hhdm = 0x1000_0000

abbrev used : ℕ
used = hhdm + 0x1000

abbrev rest : ℕ
rest = used + 96

abbrev headers : ℕ → Block
headers a =
    if a == used
    then record { size = 64; is_free = false; next = rest }
    else record { size = 3968; is_free = true; next = 0 }

abbrev heap : Heap
heap = record {
  heap_block_list = used;
  block = headers;
  byte = λ a. 1;
  pmm = record { free_list_head = hhdm + 0x5000; next = λ p. 0; max_phys_addr = 0x8000 };
}

heap-IsBlocks : IsBlocks headers used (used ∷ rest ∷ [])
heap-IsBlocks = record {
  chain = omega arith;
  distinct = omega arith;
  bounded = λ a i. ground arith;
  aligned = λ a i. ground arith;
  apart = λ a b i j ne. ground arith;
}

heap-IsHeap : IsHeap hhdm heap (used ∷ rest ∷ []) ((hhdm + 0x5000) ∷ [])
heap-IsHeap = record {
  blocks = heap-IsBlocks;
  pages = record { chain = omega arith; in_map = omega arith; distinct = omega arith };
  placed = λ x i. ground arith;
  clear = λ x i a j. ground arith;
}

-- 100 bytes are 112 of the free block; the remainder begins behind them.
kmalloc_splits :
    (h' : Heap) × (kmalloc hhdm 5 100 heap ≡ some (rest + 32, h'))
    × ((h'.block rest).next ≡ rest + 144)
    × ((h'.block (rest + 144)).size ≡ 3824)
unfolding kmalloc heap_block_split heap_block_coalesce
kmalloc_splits = (_, refl, refl, refl)

-- What is freed takes the free block behind it in.
kfree_merges : (h' : Heap) × (kfree 5 (used + 32) heap ≡ some h') × ((h'.block used).size ≡ 4064)
unfolding kfree heap_block_coalesce
kfree_merges = (_, refl, refl)

kmalloc_lem_example :
    ((kmalloc hhdm 5 100 heap ≡ some (0, heap))
      × NoMemory 100 heap (used ∷ rest ∷ []) ((hhdm + 0x5000) ∷ []))
    ⊎ Gives hhdm 100 heap (used ∷ rest ∷ []) (kmalloc hhdm 5 100 heap)
kmalloc_lem_example =
    kmalloc_lem hhdm 5 100 heap (used ∷ rest ∷ []) ((hhdm + 0x5000) ∷ []) (omega arith) heap-IsHeap
      (omega arith) (omega arith)

kmalloc-apart_example :
    (rest + 32 + 100 ≤ used + heap_header_size) ⊎ (end_of headers used ≤ rest + 32)
kmalloc-apart_example =
    kmalloc-apart hhdm 5 100 (rest + 32) used heap kmalloc_splits.0 (used ∷ rest ∷ [])
      ((hhdm + 0x5000) ∷ []) (omega arith) heap-IsHeap (omega arith) (omega arith) kmalloc_splits.1
      (omega arith) refl refl

kfree_lem_example :
    (kfree 5 0 heap ≡ some heap)
    × ((h' : Heap) × (bs' : List ℕ) × (kfree 5 (used + heap_header_size) heap ≡ some h')
        × IsHeap hhdm h' bs' ((hhdm + 0x5000) ∷ [])
        × Freed used heap (used ∷ rest ∷ []) h' bs')
kfree_lem_example =
    kfree_lem hhdm 5 used heap (used ∷ rest ∷ []) ((hhdm + 0x5000) ∷ []) heap-IsHeap refl
      (omega arith)

-- The block in use grows into the free one behind it, and what is left over is split off.
krealloc_grows :
    (h' : Heap) × (krealloc hhdm 5 (used + 32) 200 heap ≡ some (used + 32, h'))
    × ((h'.block used).size ≡ 208)
    × ((h'.block (used + 240)).size ≡ 3824)
unfolding krealloc shrink heap_block_split heap_block_coalesce
krealloc_grows = (_, refl, refl, refl)

kcalloc_overflow : kcalloc hhdm 5 0x8000_0000_0000_0000 2 heap ≡ some (0, heap)
unfolding kcalloc
kcalloc_overflow = refl
