-- ===== src/Vmm/Space.antt =====
-- kernel/src/mm/vmm.c, address spaces: the first one, a new one, and the end of one. Whether the heap
-- has room for a `struct vmm_context` is an argument.
use pros.Common.{ℕ, zero, suc, ◌-◌, Bool, Option, none, some, not, ◌||◌, ◌==◌, if◌then◌else◌}
use pros.Pmm.{pmm_phys_to_virt}
use pros.Arch.{Paging, free_frame, Mmu}
use pros.Vmm.{VmmContext, context_at, kernel_root, vmm_levels}

-- The boot loader's answer on the paging mode.
pub record PagingMode : Type 0 where
  pub mode : ℕ
  pub min_mode : ℕ

module _ (mmu : Mmu) (hhdm : ℕ) where
  first_context : ℕ × Paging → Option (VmmContext × Paging)
  unfolding context_at
  first_context (user_root, s) =
      if user_root == 0 then none else some (context_at hhdm user_root, s)

  -- `none` for a panic.
  unfoldable pub vmm_init : Option PagingMode → Bool → Paging → Option (VmmContext × Paging)
  unfolding first_context
  vmm_init none room s = none
  vmm_init (some r) room s =
      if not (r.mode == r.min_mode) || not room
      then none
      else first_context (mmu.ensure_user_root hhdm s)

  new_context : Bool → ℕ × Paging → Option VmmContext × Paging
  unfolding context_at free_frame
  new_context room (root_phys, s) =
      if root_phys == 0
      then (none, s)
      else if room
      then (some (context_at hhdm root_phys), s)
      else (none, free_frame root_phys s)

  unfoldable pub vmm_create_context : Bool → Paging → Option VmmContext × Paging
  unfolding new_context
  vmm_create_context room s =
      new_context room (mmu.new_context_root hhdm (kernel_root mmu hhdm s) s)

  -- One page below an entry that is present: what is below it is freed by `below`, then it itself.
  free_child : (ℕ → Paging → Paging) → ℕ → ℕ → Paging → Paging
  unfolding free_frame
  free_child below table i s =
      let child_phys = mmu.pte_get_phys (s.entry table i) in
      if mmu.pte_is_present (s.entry table i)
      then free_frame child_phys (below (pmm_phys_to_virt hhdm child_phys) s)
      else s

  -- The loop over the entries from `i` on.
  free_entries : (ℕ → Paging → Paging) → ℕ → ℕ → ℕ → Paging → Paging
  unfolding free_child
  free_entries below table zero i s = s
  free_entries below table (suc n) i s =
      free_entries below table n (suc i) (free_child below table i s)

  unfoldable pub vmm_free_table_recursive : ℕ → ℕ → Paging → Paging
  unfolding free_entries
  vmm_free_table_recursive zero table s = free_entries (λ t s'. s') table 512 0 s
  vmm_free_table_recursive (suc level) table s =
      free_entries (vmm_free_table_recursive level) table 512 0 s

  -- The tables of a context that is not NULL; `kfree` is the heap's.
  unfoldable pub vmm_destroy_context : Option VmmContext → Paging → Paging
  unfolding vmm_free_table_recursive free_entries
  vmm_destroy_context none s = s
  vmm_destroy_context (some ctx) s =
      if ctx.root_phys == 0
      then s
      else free_frame ctx.root_phys
          (free_entries (vmm_free_table_recursive (vmm_levels - 2)) ctx.root_virt 256 0 s)
