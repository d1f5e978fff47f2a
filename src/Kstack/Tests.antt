-- ===== src/Kstack/Tests.antt =====
-- The kernel stacks of kernel/src/proc/kstack.c at concrete inputs.
use pros.Common.{update, ℕ, ◌+◌, ◌-◌, ◌≡◌, refl, true, some}
use pros.Pmm.{Pmm, pmm_alloc}
use pros.Kstack.{kstack_alloc, kstack_contains}

abbrev hhdm : ℕ
hhdm = 0x1000_0000

-- Four free pages from 0x4000 up, and a memory of ones.
abbrev four_pages : Pmm
four_pages = record {
  free_list_head = hhdm + 0x7000;
  next = λ p. p - 0x1000;
  max_phys_addr = 0x8000;
}

abbrev ones : ℕ → ℕ
ones a = 1

first_stack :
    (s' : Pmm) × (m' : ℕ → ℕ) × (kstack_alloc hhdm 9 four_pages ones ≡ some (hhdm + 0x4000, s', m'))
unfolding kstack_alloc pmm_alloc pros.Pmm.pmm_phys_to_virt
first_stack = (_, _, refl)

in_and_out : kstack_contains 0x4000 0x7fff ≡ true
unfolding kstack_contains
in_and_out = refl

-- The stack after a use that reached down to byte 100 above the guard, and a memory of zeros.
abbrev used : ℕ → ℕ
used = update (first_stack.1) (hhdm + 0x4000 + 8 + 100) 7

abbrev zeros : ℕ → ℕ
zeros a = 0
