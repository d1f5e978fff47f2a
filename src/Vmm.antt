-- ===== src/Vmm.antt =====
-- kernel/src/mm/vmm.c: address spaces as trees of page tables. A table is known by its address in the
-- direct map, 0 for NULL; what the architecture gives is the parameter `mmu`.
pub mod Shape
pub mod Grow
pub mod Walk
pub mod Leaf
pub mod Map
pub mod Others
pub mod Fault
pub mod Space
pub mod Demand
pub mod OnDemand
pub mod Handle
mod Tests
use pros.Common.{
  ℕ, zero, suc, ◌+◌, ◌*◌, ◌/◌, ◌%◌, ◌^◌, Bool, true, false, Option, none, some, List, ◌&&◌, ◌||◌,
  add64, update, ltb, leb, ◌==◌, if◌then◌else◌,
}
use pros.Memory.{ℤ, pos, negsuc}
use pros.Pmm.{page_size, pmm_phys_to_virt}
use pros.Uaccess.{vmm_addr_split}
use pros.Arch.{set_bit, Paging, take_frame, free_frame, clear_page, Mmu}

abbrev pub vmm_present : ℕ
vmm_present = 1

abbrev pub vmm_writable : ℕ
vmm_writable = 2

abbrev pub vmm_user : ℕ
vmm_user = 4

abbrev pub vmm_cache_disable : ℕ
vmm_cache_disable = 8

abbrev pub vmm_no_execute : ℕ
vmm_no_execute = 16

abbrev pub vmm_levels : ℕ
vmm_levels = 4

-- `VMM_INDEX`
abbrev pub vmm_index : ℕ → ℕ → ℕ
vmm_index virt_addr level = virt_addr / 2 ^ (12 + level * 9) % 512

-- `struct vmm_context`
pub record VmmContext : Type 0 where
  pub root_phys : ℕ
  pub root_virt : ℕ
  pub demand_page_lo : ℕ
  pub demand_page_hi : ℕ

-- A fresh context on a root.
unfoldable pub context_at : ℕ → ℕ → VmmContext
context_at hhdm root = record {
  root_phys = root;
  root_virt = pmm_phys_to_virt hhdm root;
  demand_page_lo = 0;
  demand_page_hi = 0;
}

-- `addr & ~(PAGE_SIZE - 1)`
abbrev pub page_of : ℕ → ℕ
page_of addr = addr / page_size * page_size

module _ (mmu : Mmu) (hhdm : ℕ) where
  abbrev pub kernel_root : Paging → ℕ
  kernel_root s = mmu.get_kernel_root s.lower_root s.upper_root

  unfoldable pub get_root_table : VmmContext → ℕ → Paging → ℕ
  get_root_table ctx virt_addr s =
      if leb vmm_addr_split virt_addr then pmm_phys_to_virt hhdm (kernel_root s) else ctx.root_virt

  -- A page just taken, 0 for none, as the table below an entry.
  unfoldable pub install : ℕ → ℕ → ℕ × Paging → ℕ × Paging
  unfolding clear_page
  install table index (child_phys, s) =
      let child_virt = pmm_phys_to_virt hhdm child_phys in
      let s' = clear_page child_virt s in
      let flags = vmm_present + vmm_writable + vmm_user in
      let words = update (s'.entry table) index (mmu.make_pte child_phys flags true) in
      if child_phys == 0
      then (0, s)
      else (child_virt, record s' { entry = update s'.entry table words })

  -- The table that an entry leads to.
  abbrev pub child_of : ℕ → ℕ → Paging → ℕ
  child_of table index s = pmm_phys_to_virt hhdm (mmu.pte_get_phys (s.entry table index))

  unfoldable pub get_or_create_table : ℕ → ℕ → Paging → ℕ × Paging
  get_or_create_table table index s =
      if mmu.pte_is_present (s.entry table index)
      then (child_of table index s, s)
      else install table index (take_frame s.frames s)

  -- One round of the loop of `walk_to_leaf_slot`.
  unfoldable pub next_table : Bool → ℕ → ℕ → Paging → ℕ × Paging
  next_table true table index s = get_or_create_table table index s
  next_table false table index s =
      if mmu.pte_is_present (s.entry table index) then (child_of table index s, s) else (0, s)

  -- The loop, on the level; the table of level 0, or 0.
  unfoldable pub walk_loop : Bool → ℕ → ℕ → ℕ → Paging → ℕ × Paging
  walk_loop create virt_addr zero table s = (table, s)
  walk_loop create virt_addr (suc level) table s =
      let (t, s') = next_table create table (vmm_index virt_addr (suc level)) s in
      let rest = walk_loop create virt_addr level t s' in if t == 0 then (0, s') else rest

  -- The table of the slot; the slot is the one of `vmm_index virt_addr 0`.
  unfoldable pub walk_to_leaf_slot : VmmContext → ℕ → Bool → Paging → ℕ × Paging
  walk_to_leaf_slot ctx virt_addr create s =
      let table = get_root_table ctx virt_addr s in
      if table == 0 then (0, s) else walk_loop create virt_addr 3 table s

  abbrev pub set_entry : ℕ → ℕ → ℕ → Paging → Paging
  set_entry table index pte s = record s {
    entry = update s.entry table (update (s.entry table) index pte);
  }

  -- What `vmm_map_page` does with the slot.
  unfoldable pub map_leaf : ℕ → ℕ → ℕ → ℕ × Paging → ℤ × Paging
  map_leaf virt_addr phys_addr flags (leaf, s) = if leaf == 0 then (negsuc 0, s) else (
    pos 0,
    set_entry leaf (vmm_index virt_addr 0) (mmu.make_pte phys_addr (set_bit 0 flags) false) s,
  )

  unfoldable pub vmm_map_page : Option VmmContext → ℕ → ℕ → ℕ → Paging → ℤ × Paging
  vmm_map_page none virt_addr phys_addr flags s = (negsuc 0, s)
  vmm_map_page (some ctx) virt_addr phys_addr flags s =
      map_leaf virt_addr phys_addr flags (walk_to_leaf_slot ctx virt_addr true s)

  -- Is there a slot, with an entry that is present?
  abbrev pub is_mapped : ℕ → ℕ → Paging → Bool
  is_mapped leaf virt_addr s =
      if leaf == 0 then false else mmu.pte_is_present (s.entry leaf (vmm_index virt_addr 0))

  unfoldable pub vmm_unmap_page : Option VmmContext → ℕ → Paging → ℤ × Paging
  vmm_unmap_page none virt_addr s = (negsuc 0, s)
  vmm_unmap_page (some ctx) virt_addr s =
      let leaf = (walk_to_leaf_slot ctx virt_addr false s).0 in
      if is_mapped leaf virt_addr s
      then (pos 0, set_entry leaf (vmm_index virt_addr 0) 0 s)
      else (negsuc 0, s)

  -- `pte_get_phys` clears the low bits, so that `|` adds.
  unfoldable pub vmm_virt_to_phys : Option VmmContext → ℕ → Paging → ℕ
  vmm_virt_to_phys none virt_addr s = 0
  vmm_virt_to_phys (some ctx) virt_addr s =
      let leaf = (walk_to_leaf_slot ctx virt_addr false s).0 in
      if is_mapped leaf virt_addr s
      then mmu.pte_get_phys (s.entry leaf (vmm_index virt_addr 0)) + virt_addr % page_size
      else 0
