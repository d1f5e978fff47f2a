-- ===== src/Heap/Realloc.antt =====
-- `kcalloc` and `krealloc` of kernel/src/mm/heap.c.
use pros.Common.{
  ℕ, ◌+◌, ◌-◌, ◌/◌, not, ◌&&◌, Option, none, some, sub64, mul64, ltb, leb, ◌==◌, if◌then◌else◌,
}
use pros.Heap.{
  Heap, heap_alignment, heap_header_size, size_max, heap_align_up, heap_block_coalesce,
  heap_block_split, kmalloc, kfree,
}

-- `memset` of zeros, and `memcpy` between ranges that do not overlap.
pub fill_zero : ℕ → (ℕ → ℕ) → ℕ → ℕ → ℕ
fill_zero n byte p a = if leb p a && ltb a (p + n) then 0 else byte a

pub copy_bytes : ℕ → (ℕ → ℕ) → ℕ → ℕ → ℕ → ℕ
copy_bytes n byte dest src a =
    if leb dest a && ltb a (dest + n) then byte (src + (a - dest)) else byte a

-- The end of the cases 3 and 4 of `krealloc`: what is left over is split off.
unfoldable pub shrink : ℕ → ℕ → ℕ → Heap → Option (ℕ × Heap)
unfolding heap_block_split
shrink fuel virt_addr size h =
    elim (heap_block_split fuel (sub64 virt_addr heap_header_size) size h.block) [
      | none ↦ none
      | some mem ↦ some (virt_addr, record h { block = mem })
    ]

module _ (hhdm : ℕ) where
  -- `kcalloc` on what `kmalloc` came to: the payload is zeroed.
  zero_payload : ℕ → Option (ℕ × Heap) → Option (ℕ × Heap)
  unfolding fill_zero
  zero_payload total_size none = none
  zero_payload total_size (some (ptr, h)) =
      if ptr == 0
      then some (0, h)
      else some (ptr, record h { byte = fill_zero total_size h.byte ptr })

  unfoldable pub kcalloc : ℕ → ℕ → ℕ → Heap → Option (ℕ × Heap)
  unfolding zero_payload
  kcalloc fuel num size h =
      if not (size == 0) && ltb (size_max / size) num
      then some (0, h)
      else zero_payload (mul64 num size) (kmalloc hhdm fuel (mul64 num size) h)

  -- Case 5 of `krealloc`, after `kmalloc`: the bytes are copied, and the old block is freed.
  move_payload : ℕ → ℕ → Option (ℕ × Heap) → Option (ℕ × Heap)
  unfolding copy_bytes kfree
  move_payload fuel virt_addr none = none
  move_payload fuel virt_addr (some (new_addr, h)) =
      let size = (h.block (sub64 virt_addr heap_header_size)).size in
      let copied = record h { byte = copy_bytes size h.byte new_addr virt_addr } in
      if new_addr == 0
      then some (0, h)
      else elim (kfree fuel virt_addr copied) [ none ↦ none | some h' ↦ some (new_addr, h') ]

  -- Cases 4 and 5, on the blocks after `heap_block_coalesce`.
  grow_or_move : ℕ → ℕ → ℕ → Heap → Option (ℕ × Heap)
  unfolding move_payload shrink kmalloc
  grow_or_move fuel virt_addr size h =
      if leb size (h.block (sub64 virt_addr heap_header_size)).size
      then shrink fuel virt_addr size h
      else move_payload fuel virt_addr (kmalloc hhdm fuel size h)

  -- Cases 3 to 5, for a block and a size that is aligned.
  resize : ℕ → ℕ → ℕ → Heap → Option (ℕ × Heap)
  unfolding shrink grow_or_move
  resize fuel virt_addr size h =
      let block = sub64 virt_addr heap_header_size in
      if leb size (h.block block).size
      then shrink fuel virt_addr size h
      else elim (heap_block_coalesce fuel block h.block) [
        | none ↦ none
        | some mem ↦ grow_or_move fuel virt_addr size (record h { block = mem })
      ]

  unfoldable pub krealloc : ℕ → ℕ → ℕ → Heap → Option (ℕ × Heap)
  unfolding kmalloc kfree resize heap_align_up
  krealloc fuel virt_addr size h =
      if ltb (size_max - (heap_alignment - 1)) size
      then some (0, h)
      else if virt_addr == 0
      then kmalloc hhdm fuel size h
      else if size == 0
      then elim (kfree fuel virt_addr h) [ none ↦ none | some h' ↦ some (0, h') ]
      else resize fuel virt_addr (heap_align_up size heap_alignment) h
