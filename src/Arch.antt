-- ===== src/Arch.antt =====
-- kernel/include/arch/arch.h, its `arch_vmm_` part: what an architecture gives to the page tables of
-- kernel/src/mm/vmm.c, with the memory and the registers that both work on. The two children give it
-- as kernel/src/arch/x86_64/arch.c and kernel/src/arch/aarch64/arch.c do.
pub mod X86_64
pub mod Aarch64
pub mod Laws
mod Tests
use pros.Common.{
  ℕ, zero, ◌+◌, ◌*◌, ◌/◌, ◌%◌, ◌^◌, ◌<◌, ◌≡◌, ◌⊎◌, inl, inr, arith, Bool, true, false, List, [],
  ◌∷◌, update, ◌==◌, if◌then◌else◌,
}
use pros.Pmm.{page_size, pmm_phys_to_virt}

-- `x & (1 << k)` as a test, and `x | (1 << k)`.
abbrev pub has_bit : ℕ → ℕ → Bool
has_bit k x = x / 2 ^ k % 2 == 1

abbrev pub set_bit : ℕ → ℕ → ℕ
set_bit k x = if has_bit k x then x else x + 2 ^ k

-- `if (flags & (1 << k)) x |= (1 << n)`
abbrev pub copy_bit : ℕ → ℕ → ℕ → ℕ → ℕ
copy_bit k flags n x = if has_bit k flags then set_bit n x else x

-- The value of bit `k` at weight `n`.
abbrev pub weigh : ℕ → ℕ → ℕ → ℕ
weigh k n x = x / 2 ^ k % 2 * n

-- On a bit that is clear, `|=` adds.
pub set_bit_clear : (n x : ℕ) → x / 2 ^ n % 2 ≡ 0 → set_bit n x ≡ x + 2 ^ n
set_bit_clear n x h = ground arith

pub bit_cases : (m : ℕ) → (m % 2 ≡ 1) ⊎ (m % 2 ≡ 0)
bit_cases m = ground arith

pub copy_bit_clear :
    (k flags n x : ℕ) → x / 2 ^ n % 2 ≡ 0 → copy_bit k flags n x ≡ x + weigh k (2 ^ n) flags
copy_bit_clear k flags n x h = elim (bit_cases (flags / 2 ^ k)) [
  | inl e ↦ rw (e, set_bit_clear n x h) (omega arith)
  | inr e ↦ rw e (omega arith)
]

-- Memory as pages of 512 words, each at its address in the direct map; the pages that are free, as
-- the page allocator hands them out; the registers CR3 or TTBR0_EL1, and TTBR1_EL1.
pub record Paging : Type 0 where
  pub entry : ℕ → ℕ → ℕ
  pub frames : List ℕ
  pub lower_root : ℕ
  pub upper_root : ℕ

-- `pmm_alloc(1)`: the first free page, or 0.
unfoldable pub take_frame : List ℕ → Paging → ℕ × Paging
take_frame [] s = (0, s)
take_frame (f ∷ fs) s = (f, record s { frames = fs })

-- `pmm_free(phys, 1)`
unfoldable pub free_frame : ℕ → Paging → Paging
free_frame phys s = if phys == 0 then s else record s { frames = phys ∷ s.frames }

-- `memset(page, 0, PAGE_SIZE)`
unfoldable pub clear_page : ℕ → Paging → Paging
clear_page page s = record s { entry = update s.entry page (λ i. 0) }

pub record Mmu : Type 0 where
  pub make_pte : ℕ → ℕ → Bool → ℕ
  pub pte_is_present : ℕ → Bool
  pub pte_get_phys : ℕ → ℕ
  pub pte_get_flags : ℕ → ℕ
  pub get_kernel_root : ℕ → ℕ → ℕ  -- on the two registers
  pub ensure_user_root : ℕ → Paging → ℕ × Paging  -- on the offset of the direct map
  pub new_context_root : ℕ → ℕ → Paging → ℕ × Paging
  pub fault_is_present : ℕ → Bool
  pub fault_is_write : ℕ → Bool

-- A physical address that a page table entry can hold.
abbrev pub IsFrame : ℕ → Type 0
IsFrame p = (0 < p) × (p % page_size ≡ 0) × (p < 2 ^ 48)

pub record MmuLaws (mmu : Mmu) : Type 0 where
  pub present-make :
      (p flags : ℕ) (is_table : Bool)
      → IsFrame p
      → flags % 2 ≡ 1
      → mmu.pte_is_present (mmu.make_pte p flags is_table) ≡ true
  pub phys-make :
      (p flags : ℕ) (is_table : Bool)
      → IsFrame p
      → mmu.pte_get_phys (mmu.make_pte p flags is_table) ≡ p
  pub flags-make :
      (p flags : ℕ)
      → IsFrame p
      → flags < 32
      → mmu.pte_get_flags (mmu.make_pte p flags false) ≡ flags
  pub present_zero : mmu.pte_is_present 0 ≡ false
  pub phys_aligned : (pte : ℕ) → mmu.pte_get_phys pte % page_size ≡ 0
