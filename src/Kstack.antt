-- ===== src/Kstack.antt =====
-- kernel/src/proc/kstack.c: the kernel stacks of the tasks. A stack is known by its lowest address,
-- 0 for NULL; the memory is a function from addresses to bytes, where a 64-bit word has its lowest byte
-- first.
pub mod Usage
mod Tests
use pros.Common.{
  ℕ, zero, suc, ◌+◌, ◌-◌, ◌*◌, Bool, true, false, Option, none, some, ◌&&◌, ◌||◌, add64, ltb, leb,
  ◌==◌, if◌then◌else◌, not,
}
use pros.Memory.{memset}
use pros.Memory.Fill.{load_number, store_number}
use pros.Pmm.{Pmm, page_size, pmm_alloc, pmm_free, pmm_phys_to_virt, pmm_virt_to_phys}

abbrev pub kstack_pages : ℕ
kstack_pages = 4

abbrev pub kstack_size : ℕ
kstack_size = kstack_pages * page_size

abbrev pub kstack_guard : ℕ
kstack_guard = 0x5041474544414544

unfoldable pub kstack_get_top : ℕ → ℕ
kstack_get_top kstack = if kstack == 0 then 0 else add64 kstack kstack_size

unfoldable pub kstack_guard_intact : (ℕ → ℕ) → ℕ → Bool
unfolding load_number
kstack_guard_intact m kstack = if kstack == 0 then true else load_number 8 kstack m == kstack_guard

unfoldable pub kstack_contains : ℕ → ℕ → Bool
unfolding kstack_get_top
kstack_contains kstack ptr =
    if (kstack == 0) || (ptr == 0) then false else leb kstack ptr && ltb ptr (kstack_get_top kstack)

-- The stack zeroed and then its guard written.
init_stack : ℕ → (ℕ → ℕ) → ℕ → ℕ
unfolding memset store_number
init_stack kstack m = store_number 8 kstack kstack_guard (memset kstack 0 kstack_size m)

module _ (hhdm : ℕ) where
  -- What `kstack_alloc` does with the answer of `pmm_alloc`.
  use_pages : (ℕ → ℕ) → Option (ℕ × Pmm) → Option (ℕ × Pmm × (ℕ → ℕ))
  use_pages m none = none
  use_pages m (some (phys_addr, s)) =
      let kstack = pmm_phys_to_virt hhdm phys_addr in
      if phys_addr == 0 then some (0, s, m) else some (kstack, s, init_stack kstack m)

  -- The base of a fresh stack, 0 for failure; `none` if the fuel of the page search runs out.
  pub kstack_alloc : ℕ → Pmm → (ℕ → ℕ) → Option (ℕ × Pmm × (ℕ → ℕ))
  unfolding use_pages
  kstack_alloc fuel s m = use_pages m (pmm_alloc hhdm fuel kstack_pages s)

  pub kstack_free : ℕ → Pmm → Pmm
  kstack_free kstack s =
      if kstack == 0 then s else pmm_free hhdm (pmm_virt_to_phys hhdm kstack) kstack_pages s

-- The loop of `kstack_get_usage` on the bytes left above `i`: how many zero bytes come first.
free_bytes : ℕ → (ℕ → ℕ) → ℕ → ℕ
free_bytes zero m p = 0
free_bytes (suc left) m p = elim (m p == 0) [ true ↦ suc (free_bytes left m (p + 1)) | false ↦ 0 ]

-- What it writes to `*free` and `*total`; `none` where a pointer is NULL.
pub kstack_get_usage : (ℕ → ℕ) → ℕ → Bool → Option (ℕ × ℕ)
unfolding free_bytes
kstack_get_usage m kstack outs =
    if (kstack == 0) || not outs
    then none
    else some (free_bytes (kstack_size - 8) m (kstack + 8), kstack_size)
