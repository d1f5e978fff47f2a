-- ===== src/Arch/Aarch64.antt =====
-- kernel/src/arch/aarch64/arch.c, the page table primitives: the entries, the two root registers
-- TTBR0_EL1 and TTBR1_EL1, and the syndrome of a page fault.
use pros.Common.{
  ℕ, ◌+◌, ◌-◌, inl, inr, ◌*◌, ◌/◌, ◌%◌, ◌^◌, ◌<◌, ◌≡◌, ◌∙◌, refl, ap, Bool, true, false, not, ◌==◌,
  if◌then◌else◌, arith,
}
use pros.Pmm.{page_size, pmm_phys_to_virt}
use pros.Arch.{
  has_bit, set_bit, copy_bit, copy_bit_clear, set_bit_clear, bit_cases, weigh, Paging, take_frame,
  clear_page, Mmu, MmuLaws, IsFrame,
}

-- `if (!(flags & (1 << k))) x |= (1 << n)`
abbrev copy_not : ℕ → ℕ → ℕ → ℕ → ℕ
copy_not k flags n x = if has_bit k flags then x else set_bit n x

-- `pte |= 0x3`
table_pte : ℕ → ℕ
table_pte pte = set_bit 1 (set_bit 0 pte)

-- From bit 1 to the Execute-Never bits 54 (UXN) and 53 (PXN).
page_pte : ℕ → ℕ → ℕ
page_pte vmm_flags pte = copy_bit 4 vmm_flags 53 (
    copy_bit 4 vmm_flags 54 (
      copy_not 1 vmm_flags 7 (
        copy_bit 2 vmm_flags 6 (
          copy_bit 3 vmm_flags 2
            (set_bit 9 (set_bit 8 (set_bit 10 (copy_bit 0 vmm_flags 0 (set_bit 1 pte)))))))))

unfoldable pub make_pte : ℕ → ℕ → Bool → ℕ
unfolding table_pte page_pte
make_pte phys_addr vmm_flags is_table =
    let pte = phys_addr % 2 ^ 48 / page_size * page_size in
    if is_table then table_pte pte else page_pte vmm_flags pte

unfoldable pub pte_is_present : ℕ → Bool
pte_is_present pte = has_bit 0 pte

unfoldable pub pte_get_flags : ℕ → ℕ
pte_get_flags pte =
    copy_bit 54 pte 4 (copy_bit 2 pte 3 (copy_bit 6 pte 2 (copy_not 7 pte 1 (copy_bit 0 pte 0 0))))

unfoldable pub pte_get_phys : ℕ → ℕ
pte_get_phys pte = pte % 2 ^ 48 / page_size * page_size

-- `val & 0x0000FFFFFFFFFFFE`
abbrev root_of : ℕ → ℕ
root_of val = val % 2 ^ 48 / 2 * 2

unfoldable pub get_kernel_root : ℕ → ℕ → ℕ
get_kernel_root lower_root upper_root = root_of upper_root

-- The address of a page just taken, 0 for none, with the page cleared.
fresh_root : ℕ → ℕ × Paging → ℕ × Paging
unfolding clear_page
fresh_root hhdm (root_phys, s) =
    if root_phys == 0 then (0, s) else (root_phys, clear_page (pmm_phys_to_virt hhdm root_phys) s)

set_root : ℕ × Paging → ℕ × Paging
set_root (root_phys, s) =
    if root_phys == 0 then (0, s) else (root_phys, record s { lower_root = root_phys })

unfoldable pub ensure_user_root : ℕ → Paging → ℕ × Paging
unfolding fresh_root set_root
ensure_user_root hhdm s =
    if root_of s.lower_root == 0
    then set_root (fresh_root hhdm (take_frame s.frames s))
    else (root_of s.lower_root, s)

unfoldable pub new_context_root : ℕ → ℕ → Paging → ℕ × Paging
unfolding fresh_root
new_context_root hhdm kernel_root_phys s = fresh_root hhdm (take_frame s.frames s)

-- Present, unless the fault status is a translation fault.
unfoldable pub fault_is_present : ℕ → Bool
fault_is_present fault_code = not (fault_code % 64 / 4 == 1)

unfoldable pub fault_is_write : ℕ → Bool
fault_is_write fault_code = has_bit 6 fault_code

abbrev pub mmu : Mmu
mmu = record {
  make_pte = make_pte;
  pte_is_present = pte_is_present;
  pte_get_phys = pte_get_phys;
  pte_get_flags = pte_get_flags;
  get_kernel_root = get_kernel_root;
  ensure_user_root = ensure_user_root;
  new_context_root = new_context_root;
  fault_is_present = fault_is_present;
  fault_is_write = fault_is_write;
}

-- The entry of a page as a number.
abbrev page_sum : ℕ → ℕ → ℕ
page_sum p flags =
    p
    + 1794
    + weigh 0 1 flags
    + weigh 3 4 flags
    + weigh 2 64 flags
    + (128 - weigh 1 128 flags)
    + weigh 4 (2 ^ 54) flags
    + weigh 4 (2 ^ 53) flags

-- On a bit that is clear, `copy_not` adds what `copy_bit` does not.
copy_not_clear :
    (k flags n x : ℕ) → x / 2 ^ n % 2 ≡ 0 → copy_not k flags n x + weigh k (2 ^ n) flags ≡ x + 2 ^ n
copy_not_clear k flags n x h = elim (bit_cases (flags / 2 ^ k)) [
  | inl e ↦ rw e (omega arith)
  | inr e ↦ rw (e, set_bit_clear n x h) (omega arith)
]

page_pte_sum : (p flags : ℕ) → p % 2 ^ 12 ≡ 0 → p < 2 ^ 48 → page_pte flags p ≡ page_sum p flags
unfolding page_pte
page_pte_sum p flags aligned below =
    let x1 = p + 2 + weigh 0 1 flags in
    let x2 = p + 1794 + weigh 0 1 flags in
    let x3 = x2 + weigh 3 4 flags in
    let x4 = x3 + weigh 2 64 flags in
    let x5 = x4 + (128 - weigh 1 128 flags) in
    let low : set_bit 1 p ≡ p + 2 = set_bit_clear 1 p (omega arith) in
    let valid : copy_bit 0 flags 0 (p + 2) ≡ x1 = copy_bit_clear 0 flags 0 (p + 2) (omega arith) in
    let access : set_bit 10 x1 ≡ x1 + 1024 = set_bit_clear 10 x1 (omega arith) in
    let inner : set_bit 8 (x1 + 1024) ≡ x1 + 1280 =
      set_bit_clear 8 (x1 + 1024) (omega arith) ∙ omega arith in
    let shared : set_bit 9 (x1 + 1280) ≡ x2 =
      set_bit_clear 9 (x1 + 1280) (omega arith) ∙ omega arith in
    let device : copy_bit 3 flags 2 x2 ≡ x3 = copy_bit_clear 3 flags 2 x2 (omega arith) in
    let user : copy_bit 2 flags 6 x3 ≡ x4 = copy_bit_clear 2 flags 6 x3 (omega arith) in
    let fixed : copy_not 1 flags 7 x4 ≡ x5 =
      omega (arith, copy_not_clear 1 flags 7 x4 (omega arith)) in
    let uxn = copy_bit_clear 4 flags 54 x5 (omega arith) in
    let pxn = copy_bit_clear 4 flags 53 (x5 + weigh 4 (2 ^ 54) flags) (omega arith) in
    let outer = λ (t : ℕ). copy_bit 4 flags 53 (copy_bit 4 flags 54 t) in
    let middle =
      λ (t : ℕ). outer (copy_not 1 flags 7 (copy_bit 2 flags 6 (copy_bit 3 flags 2 t))) in
    let bits = λ (t : ℕ). set_bit 9 (set_bit 8 (set_bit 10 t)) in
    let first : bits (copy_bit 0 flags 0 (set_bit 1 p)) ≡ x2 =
      ap (λ t. bits (copy_bit 0 flags 0 t)) low
      ∙ ap bits valid
      ∙ ap (λ t. set_bit 9 (set_bit 8 t)) access
      ∙ ap (λ t. set_bit 9 t) inner
      ∙ shared in
    ap middle first
    ∙ ap (λ t. outer (copy_not 1 flags 7 (copy_bit 2 flags 6 t))) device
    ∙ ap (λ t. outer (copy_not 1 flags 7 t)) user
    ∙ ap outer fixed
    ∙ ap (λ t. copy_bit 4 flags 53 t) uxn
    ∙ pxn

pte_get_flags_sum :
    (pte : ℕ)
    → pte_get_flags pte
      ≡ weigh 0 1 pte + (2 - weigh 7 2 pte) + weigh 6 4 pte + weigh 2 8 pte + weigh 54 16 pte
unfolding pte_get_flags
pte_get_flags_sum pte =
    let x0 = weigh 0 1 pte in
    let x1 = x0 + (2 - weigh 7 2 pte) in
    let valid : copy_bit 0 pte 0 0 ≡ x0 = ground arith in
    let fixed : copy_not 7 pte 1 x0 ≡ x1 = omega (arith, copy_not_clear 7 pte 1 x0 (omega arith)) in
    let user = copy_bit_clear 6 pte 2 x1 (omega arith) in
    let device = copy_bit_clear 2 pte 3 (x1 + weigh 6 4 pte) (omega arith) in
    let uxn = copy_bit_clear 54 pte 4 (x1 + weigh 6 4 pte + weigh 2 8 pte) (omega arith) in
    ap (λ t. copy_bit 54 pte 4 (copy_bit 2 pte 3 (copy_bit 6 pte 2 (copy_not 7 pte 1 t)))) valid
    ∙ ap (λ t. copy_bit 54 pte 4 (copy_bit 2 pte 3 (copy_bit 6 pte 2 t))) fixed
    ∙ ap (λ t. copy_bit 54 pte 4 (copy_bit 2 pte 3 t)) user
    ∙ ap (λ t. copy_bit 54 pte 4 t) device
    ∙ uxn

table_pte_sum : (p : ℕ) → p % 2 ^ 12 ≡ 0 → table_pte p ≡ p + 3
unfolding table_pte
table_pte_sum p aligned =
    ap (λ t. set_bit 1 t) (set_bit_clear 0 p (omega arith))
    ∙ set_bit_clear 1 (p + 1) (omega arith)
    ∙ omega arith

make_pte_page : (p flags : ℕ) → IsFrame p → make_pte p flags false ≡ page_sum p flags
unfolding make_pte
make_pte_page p flags h =
    let e : p % 2 ^ 48 / page_size * page_size ≡ p = omega (arith, h) in
    rw e (page_pte_sum p flags (omega (arith, h)) (omega (arith, h)))

make_pte_table : (p flags : ℕ) → IsFrame p → make_pte p flags true ≡ p + 3
unfolding make_pte
make_pte_table p flags h =
    let e : p % 2 ^ 48 / page_size * page_size ≡ p = omega (arith, h) in
    rw e (table_pte_sum p (omega (arith, h)))

present-make_pte :
    (p flags : ℕ) (is_table : Bool)
    → IsFrame p
    → flags % 2 ≡ 1
    → pte_is_present (make_pte p flags is_table) ≡ true
unfolding pte_is_present
present-make_pte p flags true h odd = ground (arith, make_pte_table p flags h, h)
present-make_pte p flags false h odd = ground (arith, make_pte_page p flags h, h, odd)

phys-make_pte :
    (p flags : ℕ) (is_table : Bool) → IsFrame p → pte_get_phys (make_pte p flags is_table) ≡ p
unfolding pte_get_phys
phys-make_pte p flags true h = omega (arith, make_pte_table p flags h, h)
phys-make_pte p flags false h = omega (arith, make_pte_page p flags h, h)

flags-make_pte :
    (p flags : ℕ) → IsFrame p → flags < 32 → pte_get_flags (make_pte p flags false) ≡ flags
flags-make_pte p flags h small =
    rw (make_pte_page p flags h) (omega (arith, pte_get_flags_sum (page_sum p flags), h, small))

pub mmu_aarch64-MmuLaws : MmuLaws mmu
unfolding pte_is_present pte_get_phys
mmu_aarch64-MmuLaws = record {
  present-make = present-make_pte;
  phys-make = phys-make_pte;
  flags-make = flags-make_pte;
  present_zero = refl;
  phys_aligned = λ pte. omega arith;
}
