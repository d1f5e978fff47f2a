-- ===== src/Arch/Laws.antt =====
-- The page table entries of kernel/src/arch/x86_64/arch.c and of kernel/src/arch/aarch64/arch.c give
-- what kernel/src/mm/vmm.c relies on.
use pros.Arch.{MmuLaws}
use pros.Arch.X86_64
use pros.Arch.Aarch64

-- On both architectures: an entry made for a page or a table, with its flags' present bit, is present;
-- its address and, for a page, its five flags are read back as they were written; the entry 0 is not
-- present; and an address that is read has its low 12 bits clear.
pub mmu-MmuLaws : MmuLaws X86_64.mmu × MmuLaws Aarch64.mmu
mmu-MmuLaws = (X86_64.mmu_x86_64-MmuLaws, Aarch64.mmu_aarch64-MmuLaws)
