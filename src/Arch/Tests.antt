-- ===== src/Arch/Tests.antt =====
-- The page table entries of the two architectures at concrete inputs.
use pros.Common.{◌+◌, ◌≡◌, refl, false, [], ◌∷◌}
use pros.Arch.{Paging, take_frame}
use pros.Arch.X86_64
use pros.Arch.Aarch64

-- A page that is present, writable, the user's and not executable.
x86_64_user_page : X86_64.make_pte 0x9_0000 23 false ≡ 0x8000_0000_0009_0007
unfolding X86_64.make_pte
x86_64_user_page = refl

aarch64_user_page : Aarch64.make_pte 0x9_0000 23 false ≡ 0x60_0000_0009_0743
unfolding Aarch64.make_pte
aarch64_user_page = refl

-- A translation fault at level 2, by a write.
aarch64_fault : Aarch64.fault_is_present 0x46 ≡ false
unfolding Aarch64.fault_is_present
aarch64_fault = refl

abbrev memory : Paging
memory = record {
  entry = λ t i. t + i;
  frames = 0x2000 ∷ [];
  lower_root = 0x1001;
  upper_root = 0x3001;
}

-- A new root of x86_64 has the upper half of the kernel's.
x86_64_root :
    (X86_64.new_context_root 0x10_0000 0x1000 memory).1.entry 0x10_2000 300 ≡ 0x10_1000 + 300
unfolding X86_64.new_context_root take_frame pros.Pmm.pmm_phys_to_virt
x86_64_root = refl

aarch64_root :
    (Aarch64.ensure_user_root 0x10_0000 (record memory { lower_root = 1 })).1.lower_root ≡ 0x2000
unfolding Aarch64.ensure_user_root take_frame
aarch64_root = refl
