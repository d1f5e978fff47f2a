-- ===== src/Pmm.antt =====
-- kernel/src/mm/pmm.c: the page frame allocator. A free page holds the address of the next free
-- page in its first word, so the free list is a `next` field at each virtual page address.
pub mod FreeList
pub mod Search
pub mod Alloc
pub mod Free
pub mod Reuse
mod Tests
use pros.Common.{
  ℕ, zero, suc, ◌+◌, ◌-◌, ◌*◌, ◌/◌, ◌%◌, Bool, true, false, Option, none, some, List, [], ◌∷◌,
  add64, sub64, mul64, update, ltb, ◌==◌, if◌then◌else◌,
}

abbrev pub page_size : ℕ
page_size = 4096

-- For an alignment that is a power of two: `x & ~(align - 1)`.
abbrev pub align_down : ℕ → ℕ → ℕ
align_down x align = x / align * align

abbrev pub align_up : ℕ → ℕ → ℕ
align_up x align = align_down (add64 x (align - 1)) align

-- `struct limine_memmap_entry`, as far as it is read here.
pub record MemmapEntry : Type 0 where
  pub base : ℕ
  pub size : ℕ
  pub kind : ℕ

-- The statics of pmm.c, with the memory words that the list lies in. An address of 0 is NULL.
pub record Pmm : Type 0 where
  pub free_list_head : ℕ
  pub next : ℕ → ℕ
  pub max_phys_addr : ℕ

-- The loop over the memory map that raises `max_phys_addr`.
max_top : List MemmapEntry → ℕ → ℕ
max_top [] top = top
max_top (e ∷ entries) top =
    let entry_top = add64 e.base e.size in
    max_top entries (if ltb top entry_top then entry_top else top)

-- `none` for the panic: no memory map, or an empty one.
pub pmm_init : Option (List MemmapEntry) → Pmm → Option Pmm
unfolding max_top
pmm_init none s = none
pmm_init (some []) s = none
pmm_init (some (e ∷ entries)) s =
    some (record s { free_list_head = 0; max_phys_addr = max_top (e ∷ entries) s.max_phys_addr })

pub pmm_get_max_phys_addr : Pmm → ℕ
pmm_get_max_phys_addr s = s.max_phys_addr

-- The `for` loop of `pmm_alloc` that tests for a contiguous run, on the rounds left.
pub contiguous : (ℕ → ℕ) → ℕ → ℕ → Bool
contiguous next zero curr = true
contiguous next (suc rounds) curr = elim (sub64 curr page_size == next curr) [
  | true ↦ contiguous next rounds (next curr)
  | false ↦ false
]

-- The `while` loop of `pmm_alloc`, on fuel: `prev_node` and `start_node` where it breaks, or
-- `none` inside for a list that ends.
pub search : ℕ → (ℕ → ℕ) → ℕ → ℕ → ℕ → Option (Option (ℕ × ℕ))
unfolding contiguous
search zero next rounds prev start = none
search (suc fuel) next rounds prev start =
    let rest = search fuel next rounds start (next start) in
    if start == 0
    then some none
    else if contiguous next rounds start
    then some (some (prev, start))
    else rest

-- `node = node->next`, so many times.
pub follow : (ℕ → ℕ) → ℕ → ℕ → ℕ
follow next zero node = node
follow next (suc n) node = follow next n (next node)

-- `hhdm` is the offset of the direct map, which the boot loader fixes (`hhdm_get_offset`).
module _ (hhdm : ℕ) where
  unfoldable pub pmm_phys_to_virt : ℕ → ℕ
  pmm_phys_to_virt phys_addr = add64 phys_addr hhdm

  unfoldable pub pmm_virt_to_phys : ℕ → ℕ
  pmm_virt_to_phys virt_addr = sub64 virt_addr hhdm

  -- The loop of `pmm_free`, on the pages left.
  free_loop : ℕ → ℕ → Pmm → Pmm
  unfolding pmm_phys_to_virt
  free_loop zero next_addr s = s
  free_loop (suc n) next_addr s =
      let node = pmm_phys_to_virt next_addr in
      free_loop n (add64 next_addr page_size)
        (record s { next = update s.next node s.free_list_head; free_list_head = node })

  unfoldable pub pmm_free : ℕ → ℕ → Pmm → Pmm
  unfolding free_loop
  pmm_free phys_addr count s = if phys_addr == 0 then s else free_loop count phys_addr s

  -- The inner loop of `pmm_claim`: its bounds are multiples of the page size, so their distance
  -- gives the rounds.
  claim_pages : ℕ → ℕ → Pmm → Pmm
  unfolding pmm_free
  claim_pages zero phys_addr s = s
  claim_pages (suc n) phys_addr s =
      claim_pages n (add64 phys_addr page_size) (pmm_free phys_addr 1 s)

  claim_entries : ℕ → List MemmapEntry → Pmm → ℕ → Pmm × ℕ
  unfolding claim_pages
  claim_entries kind [] s count = (s, count)
  claim_entries kind (e ∷ entries) s count =
      let aligned_base = align_up e.base page_size in
      let aligned_top = align_down (add64 e.base e.size) page_size in
      let pages =
        if e.kind == kind
        then if ltb aligned_base aligned_top then (aligned_top - aligned_base) / page_size else 0
        else 0 in
      claim_entries kind entries (claim_pages pages aligned_base s) (add64 count pages)

  -- The new state and the number of pages claimed.
  pub pmm_claim : List MemmapEntry → ℕ → Pmm → Pmm × ℕ
  unfolding claim_entries
  pmm_claim entries kind s = claim_entries kind entries s 0

  -- What `pmm_alloc` does once the run is found.
  pub unlink : ℕ → ℕ → ℕ → Pmm → ℕ × Pmm
  unfolding follow pmm_virt_to_phys
  unlink rounds prev start s =
      let end_node = follow s.next rounds (s.next start) in
      (
        sub64 (pmm_virt_to_phys start) (mul64 rounds page_size),
        if prev == 0
            then record s { free_list_head = end_node }
            else record s { next = update s.next prev end_node },
      )

  -- The physical address, 0 for failure, and the new state; `none` if the fuel runs out.
  unfoldable pub pmm_alloc : ℕ → ℕ → Pmm → Option (ℕ × Pmm)
  unfolding search unlink
  pmm_alloc fuel count s = elim (search fuel s.next (sub64 count 1) 0 s.free_list_head) [
    | none ↦ none
    | some none ↦ some (0, s)
    | some (some (prev, start)) ↦ some (unlink (sub64 count 1) prev start s)
  ]

-- The walk of `pmm_get_free_page_count`, on fuel.
count_nodes : ℕ → (ℕ → ℕ) → ℕ → ℕ → Option ℕ
count_nodes zero next node count = none
count_nodes (suc fuel) next node count =
    let rest = count_nodes fuel next (next node) (add64 count 1) in
    if node == 0 then some count else rest

unfoldable pub pmm_get_free_page_count : ℕ → Pmm → Option ℕ
unfolding count_nodes
pmm_get_free_page_count fuel s = count_nodes fuel s.next s.free_list_head 0
