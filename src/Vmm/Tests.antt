-- ===== src/Vmm/Tests.antt =====
-- The page tables of kernel/src/mm/vmm.c with the entries of x86_64, at concrete inputs.
use pros.Common.{ℕ, ◌≡◌, inr, refl, some, [], ◌∷◌, arith, update}
use pros.Pmm.{pmm_phys_to_virt}
use pros.Arch.{Paging, Mmu, MmuLaws}
use pros.Arch.X86_64.{mmu, mmu_x86_64-MmuLaws}
use pros.Vmm.{
  VmmContext, vmm_map_page, vmm_unmap_page, vmm_virt_to_phys, get_or_create_table, install,
  next_table, walk_loop,
}
use pros.Vmm.Shape.{Shape, IsShaped}
use pros.Vmm.Map.{HasRoots, IsSound, Mapped, phys_of, vmm_map_page-vmm_virt_to_phys}
use pros.Vmm.Others.{Unmapped, vmm_map_page-other, vmm_unmap_page_lem}
use pros.Vmm.Fault.{try_handle_demand_page_fault, vmm_handle_page_fault}
use pros.Vmm.OnDemand.{Demanded, try_handle_demand_page_fault_lem}
use pros.Vmm.Handle.{Handled, vmm_handle_page_fault_lem}

abbrev hhdm : ℕ
hhdm = 0xffff_8000_0000_0000

abbrev root : ℕ
root = 0xffff_8000_0000_1000

-- An empty root, and five free pages.
abbrev empty : Paging
empty = record {
  entry = λ t i. 0;
  frames = 0x2000 ∷ 0x3000 ∷ 0x4000 ∷ 0x5000 ∷ 0x6000 ∷ [];
  lower_root = 0x1000;
  upper_root = 0;
}

abbrev one_root : Shape
one_root = record { level = update (λ t. 4) root 3; region = λ t. 0 }

abbrev context : VmmContext
context = record {
  root_phys = 0x1000;
  root_virt = root;
  demand_page_lo = 0x40_0000;
  demand_page_hi = 0x80_0000;
}

empty-IsShaped : IsShaped mmu hhdm one_root empty
empty-IsShaped = record {
  children =
      λ t k i lt lo li p. let q = mmu_x86_64-MmuLaws.present_zero in absurd (ground (arith, p, q));
  free = ground arith;
  distinct = omega arith;
}

empty-HasRoots : HasRoots mmu hhdm one_root context empty
unfolding pmm_phys_to_virt pros.Arch.X86_64.get_kernel_root
empty-HasRoots = ground arith

-- Map a page, and translate an address in it.
map_translates :
    vmm_virt_to_phys mmu hhdm
      (some context)
      0x40_1234
      (vmm_map_page mmu hhdm (some context) 0x40_1000 0x9_0000 2 empty).1
    ≡ 0x9_0234
unfolding vmm_virt_to_phys vmm_map_page pros.Vmm.walk_to_leaf_slot pros.Vmm.get_root_table walk_loop
    next_table pros.Arch.X86_64.pte_is_present pros.Vmm.map_leaf get_or_create_table install
    pros.Arch.take_frame pmm_phys_to_virt pros.Arch.X86_64.make_pte pros.Arch.X86_64.pte_get_phys
map_translates = refl

vmm_map_page-vmm_virt_to_phys_example :
    Mapped mmu mmu_x86_64-MmuLaws hhdm context 0x40_1000 0x9_0000 empty
      (vmm_map_page mmu hhdm (some context) 0x40_1000 0x9_0000 2 empty)
vmm_map_page-vmm_virt_to_phys_example =
    vmm_map_page-vmm_virt_to_phys mmu mmu_x86_64-MmuLaws hhdm one_root context 0x40_1000 0x9_0000 2
      empty empty-IsShaped empty-HasRoots (omega arith)

vmm_map_page-other_example :
    (phys_of mmu mmu_x86_64-MmuLaws hhdm context 0x40_2000
        (vmm_map_page mmu hhdm (some context) 0x40_1000 0x9_0000 2 empty).1
      ≡ phys_of mmu mmu_x86_64-MmuLaws hhdm context 0x40_2000 empty)
    × (phys_of mmu mmu_x86_64-MmuLaws hhdm context 0x40_2000
          (vmm_unmap_page mmu hhdm (some context) 0x40_1000 empty).1
        ≡ phys_of mmu mmu_x86_64-MmuLaws hhdm context 0x40_2000 empty)
vmm_map_page-other_example =
    vmm_map_page-other mmu mmu_x86_64-MmuLaws hhdm one_root context context 0x40_1000 0x40_2000
      0x9_0000 2 empty empty-IsShaped empty-HasRoots empty-HasRoots (omega arith)

-- With one page mapped.
abbrev mapped : Paging
mapped = (vmm_map_page mmu hhdm (some context) 0x40_1000 0x9_0000 2 empty).1

mapped-IsSound : IsSound mmu mmu_x86_64-MmuLaws hhdm context mapped
mapped-IsSound =
    (vmm_map_page-vmm_virt_to_phys mmu mmu_x86_64-MmuLaws hhdm one_root context 0x40_1000 0x9_0000 2
      empty empty-IsShaped empty-HasRoots (omega arith)).0

vmm_unmap_page_lem_example :
    Unmapped mmu mmu_x86_64-MmuLaws hhdm context 0x40_1000 mapped
      (vmm_unmap_page mmu hhdm (some context) 0x40_1000 mapped)
vmm_unmap_page_lem_example =
    vmm_unmap_page_lem mmu mmu_x86_64-MmuLaws hhdm mapped-IsSound.0 context 0x40_1000 mapped
      mapped-IsSound.1 mapped-IsSound.2

try_handle_demand_page_fault_lem_example :
    Demanded mmu mmu_x86_64-MmuLaws hhdm context 0x40_1234 empty
      (try_handle_demand_page_fault mmu hhdm (some context) 0x40_1234 2 empty)
unfolding pros.Arch.X86_64.fault_is_present
try_handle_demand_page_fault_lem_example =
    try_handle_demand_page_fault_lem mmu mmu_x86_64-MmuLaws hhdm one_root context 0x40_1234 2 empty
      empty-IsShaped empty-HasRoots (omega arith) (omega arith) refl

vmm_handle_page_fault_lem_example :
    Handled mmu mmu_x86_64-MmuLaws hhdm 0x1000_0000 context 0xffff_8000_0900_0040 0 empty (
      vmm_handle_page_fault mmu hhdm 0x1000_0000
        (some context)
        (some context)
        0xffff_8000_0900_0040
        0
        empty)
vmm_handle_page_fault_lem_example =
    vmm_handle_page_fault_lem mmu mmu_x86_64-MmuLaws hhdm 0x1000_0000 one_root context
      (some context) 0xffff_8000_0900_0040 0 empty empty-IsShaped empty-HasRoots (omega arith)
      (omega arith) (omega arith) (omega arith) (inr (omega arith)) (inr (inr (omega arith)))
