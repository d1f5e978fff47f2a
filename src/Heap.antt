-- ===== src/Heap.antt =====
-- kernel/src/mm/heap.c: blocks of memory behind headers, in a list that starts at
-- `heap_block_list`. A block is known by the address of its header, 0 for NULL; the headers and the
-- bytes of the payloads are functions from addresses. The loops run on fuel; `none` is fuel that is out.
pub mod Blocks
pub mod Absorb
pub mod Coalesce
pub mod Cut
pub mod Split
pub mod Mark
pub mod Fresh
pub mod Push
pub mod Invariant
pub mod NewBlock
pub mod Take
pub mod Realloc
pub mod Alloc
pub mod Free
mod Tests
use pros.Common.{
  ℕ, zero, suc, ◌+◌, ◌-◌, ◌*◌, ◌/◌, Bool, true, false, not, ◌&&◌, ◌||◌, Option, none, some, update,
  add64, sub64, mul64, u64_mod, ltb, leb, ◌==◌, if◌then◌else◌,
}
use pros.Pmm.{Pmm, page_size, align_up, pmm_alloc, pmm_phys_to_virt}

abbrev pub heap_alignment : ℕ
heap_alignment = 16

-- `HEAP_ALIGN_UP(sizeof(struct heap_block), HEAP_ALIGNMENT)`, where the structure takes 24 bytes.
abbrev pub heap_header_size : ℕ
heap_header_size = 32

abbrev pub size_max : ℕ
size_max = u64_mod - 1

unfoldable pub heap_align_up : ℕ → ℕ → ℕ
heap_align_up size align = add64 size (align - 1) / align * align

pub record Block : Type 0 where
  pub size : ℕ
  pub is_free : Bool
  pub next : ℕ

pub record Heap : Type 0 where
  pub heap_block_list : ℕ
  pub block : ℕ → Block
  pub byte : ℕ → ℕ
  pub pmm : Pmm

-- The block with its next one absorbed: the body of the loop of `heap_block_coalesce`.
unfoldable pub absorb : ℕ → (ℕ → Block) → ℕ → Block
absorb block mem =
    let b = mem block in
    let n = mem b.next in
    update mem block
      (record b { size = add64 b.size (add64 heap_header_size n.size); next = n.next })

-- The condition of that loop.
unfoldable pub may_absorb : ℕ → (ℕ → Block) → Bool
may_absorb block mem =
    let b = mem block in
    let block_end = add64 (add64 block heap_header_size) b.size in
    not (b.next == 0) && (mem b.next).is_free && (block_end == b.next)

pub heap_block_coalesce : ℕ → ℕ → (ℕ → Block) → Option (ℕ → Block)
unfolding absorb may_absorb
heap_block_coalesce zero block mem = none
heap_block_coalesce (suc fuel) block mem =
    let rest = heap_block_coalesce fuel block (absorb block mem) in
    if may_absorb block mem then rest else some mem

-- The block cut after `size` bytes, and the header of the remainder.
unfoldable pub cut : ℕ → ℕ → (ℕ → Block) → ℕ × (ℕ → Block)
cut block size mem =
    let remainder = add64 (add64 block heap_header_size) size in
    let rest : Block = record {
      size = sub64 (sub64 (mem block).size heap_header_size) size;
      is_free = true;
      next = (mem block).next;
    } in
    let mem' = update mem remainder rest in
    (remainder, update mem' block (record (mem' block) { next = remainder; size = size }))

pub heap_block_split : ℕ → ℕ → ℕ → (ℕ → Block) → Option (ℕ → Block)
unfolding cut heap_block_coalesce
heap_block_split fuel block size mem =
    let (remainder, mem') = cut block size mem in
    if ltb (mem block).size (add64 (add64 size heap_header_size) heap_alignment)
    then some mem
    else heap_block_coalesce fuel remainder mem'

-- The search of `kmalloc`: the first free block that is large enough, 0 if there is none.
pub search_free : ℕ → (ℕ → Block) → ℕ → ℕ → Option ℕ
search_free zero mem search size = none
search_free (suc fuel) mem search size =
    let rest = search_free fuel mem (mem search).next size in
    if search == 0
    then some 0
    else if (mem search).is_free && leb size (mem search).size
    then some search
    else rest

-- The end of `kmalloc`: the block is split, marked as in use, and its payload returned.
pub take_block : ℕ → ℕ → ℕ → Heap → Option (ℕ × Heap)
unfolding heap_block_split
take_block fuel block size h = elim (heap_block_split fuel block size h.block) [
  | none ↦ none
  | some mem ↦ some (
    add64 block heap_header_size,
    record h { block = update mem block (record (mem block) { is_free = false }) },
  )
]

-- The same on what the search and `pmm_alloc` came to.
pub use_block : ℕ → ℕ → Option (ℕ × Heap) → Option (ℕ × Heap)
unfolding take_block
use_block fuel size none = none
use_block fuel size (some (block, h)) =
    if block == 0 then some (0, h) else take_block fuel block size h

unfoldable pub kfree : ℕ → ℕ → Heap → Option Heap
unfolding heap_block_coalesce
kfree fuel virt_addr h =
    let block = sub64 virt_addr heap_header_size in
    let freed = update h.block block (record (h.block block) { is_free = true }) in
    if virt_addr == 0 then some h else elim (heap_block_coalesce fuel block freed) [
      | none ↦ none
      | some mem ↦ some (record h { block = mem })
    ]

module _ (hhdm : ℕ) where
  -- What `kmalloc` does with the answer of `pmm_alloc`: `pages` pages are a block, in front of the list.
  pub place_block : ℕ → Option (ℕ × Pmm) → Heap → Option (ℕ × Heap)
  unfolding pmm_phys_to_virt
  place_block pages none h = none
  place_block pages (some (phys_addr, pmm)) h =
      let block = pmm_phys_to_virt hhdm phys_addr in
      let header : Block = record {
        size = sub64 (mul64 pages page_size) heap_header_size;
        is_free = true;
        next = h.heap_block_list;
      } in
      if phys_addr == 0
      then some (0, record h { pmm = pmm })
      else some (
        block,
        record h { heap_block_list = block; block = update h.block block header; pmm = pmm },
      )

  -- The new block of `kmalloc`; block 0 if there is no memory.
  pub new_block : ℕ → ℕ → Heap → Option (ℕ × Heap)
  unfolding place_block
  new_block fuel size h =
      let pages = add64 (add64 heap_header_size size) (page_size - 1) / page_size in
      place_block pages (pmm_alloc hhdm fuel pages h.pmm) h

  -- The block that `kmalloc` uses: one that the search found, or a new one.
  pub find_block : ℕ → ℕ → Heap → Option (ℕ × Heap)
  unfolding new_block search_free
  find_block fuel size h = elim (search_free fuel h.block h.heap_block_list size) [
    | none ↦ none
    | some found ↦ if found == 0 then new_block fuel size h else some (found, h)
  ]

  -- The payload of a block of at least `size` bytes, 0 for failure.
  unfoldable pub kmalloc : ℕ → ℕ → Heap → Option (ℕ × Heap)
  unfolding find_block use_block heap_align_up
  kmalloc fuel size h =
      let aligned = heap_align_up size heap_alignment in
      let want = if aligned == 0 then heap_alignment else aligned in
      if ltb (size_max - heap_header_size - page_size - heap_alignment) size
      then some (0, h)
      else use_block fuel want (find_block fuel want h)

  -- What `heap_init` does with the page: a free block that fills it. `none` is its panic.
  first_block : ℕ × Pmm → Heap → Option Heap
  unfolding pmm_phys_to_virt
  first_block (phys_addr, pmm) h =
      let block = pmm_phys_to_virt hhdm phys_addr in
      let header : Block = record {
        size = page_size - heap_header_size;
        is_free = true;
        next = 0;
      } in
      if phys_addr == 0
      then none
      else some
          (record h { heap_block_list = block; block = update h.block block header; pmm = pmm })

  pub heap_init : ℕ → Heap → Option (Option Heap)
  unfolding first_block
  heap_init fuel h = elim (pmm_alloc hhdm fuel 1 h.pmm) [
    | none ↦ none
    | some answer ↦ some (first_block answer h)
  ]
