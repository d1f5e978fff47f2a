-- ===== src/Arch/X86_64.antt =====
-- kernel/src/arch/x86_64/arch.c, the page table primitives: the entries, the one root register CR3,
-- and the error code of a page fault.
use pros.Common.{
  ℕ, ◌+◌, ◌*◌, ◌/◌, ◌%◌, ◌^◌, ◌<◌, ◌≡◌, Bool, false, update, ◌==◌, ltb, if◌then◌else◌, arith, refl,
  ap, ◌∙◌,
}
use pros.Pmm.{page_size, pmm_phys_to_virt}
use pros.Arch.{
  has_bit, copy_bit, copy_bit_clear, Paging, take_frame, clear_page, Mmu, MmuLaws, IsFrame, weigh,
}

unfoldable pub make_pte : ℕ → ℕ → Bool → ℕ
make_pte phys_addr vmm_flags is_table = copy_bit 4 vmm_flags 63 (
    copy_bit 3 vmm_flags 4 (
      copy_bit 2 vmm_flags 2
        (copy_bit 1 vmm_flags 1 (copy_bit 0 vmm_flags 0 (phys_addr / page_size * page_size)))))

unfoldable pub pte_is_present : ℕ → Bool
pte_is_present pte = has_bit 0 pte

unfoldable pub pte_get_phys : ℕ → ℕ
pte_get_phys pte = pte % 2 ^ 52 / page_size * page_size

unfoldable pub pte_get_flags : ℕ → ℕ
pte_get_flags pte =
    copy_bit 63 pte 4 (copy_bit 4 pte 3 (copy_bit 2 pte 2 (copy_bit 1 pte 1 (copy_bit 0 pte 0 0))))

unfoldable pub get_kernel_root : ℕ → ℕ → ℕ
get_kernel_root lower_root upper_root = lower_root

unfoldable pub ensure_user_root : ℕ → Paging → ℕ × Paging
unfolding get_kernel_root
ensure_user_root hhdm s = (get_kernel_root s.lower_root s.upper_root, s)

-- The words of a fresh root: the upper half is the kernel's.
clone_upper : (ℕ → ℕ) → ℕ → ℕ
clone_upper kernel_root i = if ltb i 256 then 0 else kernel_root i

new_root : ℕ → ℕ → ℕ × Paging → ℕ × Paging
unfolding clear_page clone_upper
new_root hhdm kernel_root_phys (root_phys, s) =
    let root_virt = pmm_phys_to_virt hhdm root_phys in
    let s' = clear_page root_virt s in
    let words = clone_upper (s'.entry (pmm_phys_to_virt hhdm kernel_root_phys)) in
    if root_phys == 0
    then (0, s)
    else (root_phys, record s' { entry = update s'.entry root_virt words })

unfoldable pub new_context_root : ℕ → ℕ → Paging → ℕ × Paging
unfolding new_root
new_context_root hhdm kernel_root_phys s = new_root hhdm kernel_root_phys (take_frame s.frames s)

unfoldable pub fault_is_present : ℕ → Bool
fault_is_present fault_code = has_bit 0 fault_code

unfoldable pub fault_is_write : ℕ → Bool
fault_is_write fault_code = has_bit 1 fault_code

abbrev pub mmu : Mmu
mmu = record {
  make_pte = make_pte;
  pte_is_present = pte_is_present;
  pte_get_phys = pte_get_phys;
  pte_get_flags = pte_get_flags;
  get_kernel_root = get_kernel_root;
  ensure_user_root = ensure_user_root;
  new_context_root = new_context_root;
  fault_is_present = fault_is_present;
  fault_is_write = fault_is_write;
}

-- Where the bits are clear, copying them adds them.
copy_sum :
    (p flags : ℕ)
    → p % 2 ^ 12 ≡ 0
    → p < 2 ^ 48
    → copy_bit 4 flags 63
        (copy_bit 3 flags 4 (copy_bit 2 flags 2 (copy_bit 1 flags 1 (copy_bit 0 flags 0 p))))
      ≡ p
        + weigh 0 1 flags
        + weigh 1 2 flags
        + weigh 2 4 flags
        + weigh 3 16 flags
        + weigh 4 (2 ^ 63) flags
copy_sum p flags aligned below =
    let b0 = copy_bit_clear 0 flags 0 p (omega arith) in
    let b1 = copy_bit_clear 1 flags 1 (p + weigh 0 1 flags) (omega arith) in
    let b2 = copy_bit_clear 2 flags 2 (p + weigh 0 1 flags + weigh 1 2 flags) (omega arith) in
    let b3 =
      copy_bit_clear 3 flags 4 (p + weigh 0 1 flags + weigh 1 2 flags + weigh 2 4 flags)
        (omega arith) in
    let b4 =
      copy_bit_clear 4 flags 63
        (p + weigh 0 1 flags + weigh 1 2 flags + weigh 2 4 flags + weigh 3 16 flags)
        (omega arith) in
    ap (λ t. copy_bit 4 flags 63 (copy_bit 3 flags 4 (copy_bit 2 flags 2 (copy_bit 1 flags 1 t))))
      b0
    ∙ ap (λ t. copy_bit 4 flags 63 (copy_bit 3 flags 4 (copy_bit 2 flags 2 t))) b1
    ∙ ap (λ t. copy_bit 4 flags 63 (copy_bit 3 flags 4 t)) b2
    ∙ ap (λ t. copy_bit 4 flags 63 t) b3
    ∙ b4

make_pte_sum :
    (p flags : ℕ) (is_table : Bool)
    → IsFrame p
    → make_pte p flags is_table
      ≡ p
        + weigh 0 1 flags
        + weigh 1 2 flags
        + weigh 2 4 flags
        + weigh 3 16 flags
        + weigh 4 (2 ^ 63) flags
unfolding make_pte
make_pte_sum p flags is_table h =
    let e : p / page_size * page_size ≡ p = omega (arith, h) in
    rw e (copy_sum p flags (omega (arith, h)) (omega (arith, h)))

pte_get_flags_sum :
    (pte : ℕ)
    → pte_get_flags pte
      ≡ weigh 0 1 pte + weigh 1 2 pte + weigh 2 4 pte + weigh 4 8 pte + weigh 63 16 pte
unfolding pte_get_flags
pte_get_flags_sum pte =
    let b0 : copy_bit 0 pte 0 0 ≡ weigh 0 1 pte = ground arith in
    let b1 = copy_bit_clear 1 pte 1 (weigh 0 1 pte) (omega arith) in
    let b2 = copy_bit_clear 2 pte 2 (weigh 0 1 pte + weigh 1 2 pte) (omega arith) in
    let b3 = copy_bit_clear 4 pte 3 (weigh 0 1 pte + weigh 1 2 pte + weigh 2 4 pte) (omega arith) in
    let b4 =
      copy_bit_clear 63 pte 4 (weigh 0 1 pte + weigh 1 2 pte + weigh 2 4 pte + weigh 4 8 pte)
        (omega arith) in
    ap (λ t. copy_bit 63 pte 4 (copy_bit 4 pte 3 (copy_bit 2 pte 2 (copy_bit 1 pte 1 t)))) b0
    ∙ ap (λ t. copy_bit 63 pte 4 (copy_bit 4 pte 3 (copy_bit 2 pte 2 t))) b1
    ∙ ap (λ t. copy_bit 63 pte 4 (copy_bit 4 pte 3 t)) b2
    ∙ ap (λ t. copy_bit 63 pte 4 t) b3
    ∙ b4

pub mmu_x86_64-MmuLaws : MmuLaws mmu
unfolding pte_is_present pte_get_phys
mmu_x86_64-MmuLaws = record {
  present-make = λ p flags is_table h odd. ground (arith, make_pte_sum p flags is_table h, h, odd);
  phys-make = λ p flags is_table h. omega (arith, make_pte_sum p flags is_table h, h);
  flags-make = λ p flags h small. rw (make_pte_sum p flags false h) (
      omega (
        arith,
        pte_get_flags_sum (
            p
            + weigh 0 1 flags
            + weigh 1 2 flags
            + weigh 2 4 flags
            + weigh 3 16 flags
            + weigh 4 (2 ^ 63) flags),
        h,
        small,
      ));
  present_zero = refl;
  phys_aligned = λ pte. omega arith;
}
