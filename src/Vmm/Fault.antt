-- ===== src/Vmm/Fault.antt =====
-- kernel/src/mm/vmm.c, page faults: of the direct map, for the memory of devices, and on demand.
use pros.Common.{
  ℕ, ◌-◌, ◌+◌, Bool, true, false, Option, none, some, ◌||◌, add64, ltb, leb, ◌==◌, if◌then◌else◌,
}
use pros.Memory.{ℤ, pos, negsuc}
use pros.Pmm.{pmm_phys_to_virt}
use pros.Arch.{Paging, take_frame, free_frame, clear_page, Mmu}
use pros.Vmm.{VmmContext, vmm_map_page, page_of, vmm_writable, vmm_user, vmm_cache_disable}

-- `== 0` on a result.
abbrev pub succeeded : ℤ → Bool
succeeded (pos n) = n == 0
succeeded (negsuc n) = false

-- Outside a range.
abbrev pub outside : ℕ → ℕ → ℕ → Bool
outside lo hi addr = ltb addr lo || leb hi addr

module _ (mmu : Mmu) (hhdm : ℕ) where
  unfoldable pub try_handle_hhdm_mmio_fault : ℕ → Option VmmContext → ℕ → ℕ → Paging → Bool × Paging
  try_handle_hhdm_mmio_fault max_phys kernel_context fault_addr error_code s =
      let hhdm_top = add64 hhdm max_phys in
      let flags = vmm_writable + vmm_cache_disable in
      let (result, s') =
        vmm_map_page mmu hhdm kernel_context (page_of fault_addr) (page_of (fault_addr - hhdm))
          flags s in
      if (hhdm == 0) || outside hhdm hhdm_top fault_addr
      then (false, s)
      else if mmu.fault_is_present error_code
      then (false, s)
      else (succeeded result, s')

  -- What follows `vmm_map_page`.
  unfoldable pub demand_result : ℕ → ℤ × Paging → Bool × Paging
  demand_result phys_addr (result, s) =
      if succeeded result then (true, s) else (false, free_frame phys_addr s)

  -- What follows `pmm_alloc`.
  unfoldable pub demand_page : VmmContext → ℕ → ℕ × Paging → Bool × Paging
  demand_page ctx fault_addr (phys_addr, s) =
      let s' = clear_page (pmm_phys_to_virt hhdm phys_addr) s in
      let flags = vmm_writable + vmm_user in
      let mapped = vmm_map_page mmu hhdm (some ctx) (page_of fault_addr) phys_addr flags s' in
      if phys_addr == 0 then (false, s) else demand_result phys_addr mapped

  unfoldable pub try_handle_demand_page_fault : Option VmmContext → ℕ → ℕ → Paging → Bool × Paging
  try_handle_demand_page_fault none fault_addr error_code s = (false, s)
  try_handle_demand_page_fault (some ctx) fault_addr error_code s =
      if outside ctx.demand_page_lo ctx.demand_page_hi fault_addr
      then (false, s)
      else if mmu.fault_is_present error_code
      then (false, s)
      else demand_page ctx fault_addr (take_frame s.frames s)

  -- With `pmm_get_max_phys_addr`, on `vmm_kernel_context` and `vmm_current_context`.
  unfoldable pub vmm_handle_page_fault :
      ℕ → Option VmmContext → Option VmmContext → ℕ → ℕ → Paging → Bool × Paging
  vmm_handle_page_fault max_phys kernel_context current_context fault_addr error_code s =
      let (handled, s') =
        try_handle_hhdm_mmio_fault max_phys kernel_context fault_addr error_code s in
      if handled
      then (true, s')
      else try_handle_demand_page_fault current_context fault_addr error_code s'
