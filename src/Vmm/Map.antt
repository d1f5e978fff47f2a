-- ===== src/Vmm/Map.antt =====
-- `vmm_map_page`, `vmm_unmap_page` and `vmm_virt_to_phys` of kernel/src/mm/vmm.c together.
use pros.Common.{
  ℕ, ◌+◌, ◌%◌, ◌≡◌, ◌≢◌, ◌⊎◌, inl, inr, refl, sym, ap, ◌∙◌, Bool, true, false, some, [], arith, leb,
  if◌then◌else◌, Bool-cases, ne→==,
}
use mathlib.Core.Path.{subst}
use pros.Memory.{ℤ, pos, negsuc}
use pros.Pmm.{page_size, pmm_phys_to_virt}
use pros.Uaccess.{vmm_addr_split}
use pros.Arch.{set_bit, Paging, Mmu, MmuLaws, IsFrame}
use pros.Vmm.{
  vmm_index, VmmContext, kernel_root, get_root_table, walk_loop, walk_to_leaf_slot, map_leaf,
  vmm_map_page, is_mapped, vmm_virt_to_phys, set_entry,
}
use pros.Vmm.Shape.{Shape, IsShaped, leaf_entry, Grows}
use pros.Vmm.Walk.{Reaches, Walked, walk_loop-Walked}
use pros.Vmm.Leaf.{Looked, walk_loop-Looked, written-IsShaped, written_here}

abbrev pub IsRoot : Shape → ℕ → Type 0
IsRoot g t = (t ≢ 0) × (g.level t ≡ 3) × (g.region t ≡ 0)

-- The table of the context and the one of the kernel are roots.
abbrev pub HasRoots : Mmu → ℕ → Shape → VmmContext → Paging → Type 0
HasRoots mmu hhdm g ctx s =
    IsRoot g ctx.root_virt × IsRoot g (pmm_phys_to_virt hhdm (kernel_root mmu hhdm s))

module _ (mmu : Mmu) (hhdm : ℕ) where
  abbrev pub translation : ℕ → ℕ → ℕ
  translation va pte = if mmu.pte_is_present pte then mmu.pte_get_phys pte + va % page_size else 0

  abbrev pub entry_of : VmmContext → ℕ → Paging → ℕ
  entry_of ctx va s = leaf_entry mmu hhdm va 3 (get_root_table mmu hhdm ctx va s) s

  pub get_root_table-IsRoot :
      (g : Shape) (ctx : VmmContext) (va : ℕ) (s : Paging)
      → HasRoots mmu hhdm g ctx s
      → IsRoot g (get_root_table mmu hhdm ctx va s)
  unfolding get_root_table
  get_root_table-IsRoot g ctx va s (user, kernel) = elim (Bool-cases (leb vmm_addr_split va)) [
    | inl e ↦ rw e kernel
    | inr e ↦ rw e user
  ]

  walk_to_leaf_slot_lem :
      (ctx : VmmContext) (va : ℕ) (create : Bool) (s : Paging)
      → get_root_table mmu hhdm ctx va s ≢ 0
      → walk_to_leaf_slot mmu hhdm ctx va create s
        ≡ walk_loop mmu hhdm create va 3 (get_root_table mmu hhdm ctx va s) s
  unfolding walk_to_leaf_slot
  walk_to_leaf_slot_lem ctx va create s ne = rw (ne→== (get_root_table mmu hhdm ctx va s) 0 ne) refl

  pub look-Looked :
      (g : Shape) (ctx : VmmContext) (va : ℕ) (s : Paging)
      → IsShaped mmu hhdm g s
      → HasRoots mmu hhdm g ctx s
      → Looked mmu hhdm g s va 3
          (get_root_table mmu hhdm ctx va s)
          (walk_to_leaf_slot mmu hhdm ctx va false s)
  look-Looked g ctx va s shaped roots =
      let root = get_root_table mmu hhdm ctx va s in
      let is = get_root_table-IsRoot g ctx va s roots in
      subst (Looked mmu hhdm g s va 3 root) (sym (walk_to_leaf_slot_lem ctx va false s is.0))
        (walk_loop-Looked mmu hhdm va 3 root g s (omega arith) is.0 shaped is.1 is.2)

  pub make-Walked :
      (laws : MmuLaws mmu) (g : Shape) (ctx : VmmContext) (va : ℕ) (s : Paging)
      → IsShaped mmu hhdm g s
      → HasRoots mmu hhdm g ctx s
      → Walked mmu laws hhdm g s va 3
          (get_root_table mmu hhdm ctx va s)
          (walk_to_leaf_slot mmu hhdm ctx va true s)
  make-Walked laws g ctx va s shaped roots =
      let root = get_root_table mmu hhdm ctx va s in
      let is = get_root_table-IsRoot g ctx va s roots in
      subst (Walked mmu laws hhdm g s va 3 root) (sym (walk_to_leaf_slot_lem ctx va true s is.0))
        (walk_loop-Walked mmu laws hhdm va 3 root g s (omega arith) is.0 shaped is.1 is.2)

  virt_to_phys_by : ℕ → ℕ × Paging → Paging → ℕ
  virt_to_phys_by va (leaf, s') s =
      if is_mapped mmu hhdm leaf va s
      then mmu.pte_get_phys (s.entry leaf (vmm_index va 0)) + va % page_size
      else 0

  translated :
      (laws : MmuLaws mmu) (g : Shape) (va t : ℕ) (s : Paging) (r : ℕ × Paging)
      → Looked mmu hhdm g s va 3 t r
      → virt_to_phys_by va r s ≡ translation va (leaf_entry mmu hhdm va 3 t s)
  unfolding virt_to_phys_by
  translated laws g va t s (leaf, s') (same, inl (e, e')) =
      ap (λ l. virt_to_phys_by va (l, s') s) e ∙ sym (nothing va) ∙ ap (translation va) (sym e')
    where
      nothing : (va : ℕ) → translation va 0 ≡ 0
      nothing va = rw laws.present_zero refl
  translated laws g va t s (leaf, s') (same, inr (ne, lv, rg, path, e)) =
      mapped ∙ ap (translation va) (sym e)
    where
      mapped : virt_to_phys_by va (leaf, s') s ≡ translation va (s.entry leaf (vmm_index va 0))
      mapped = rw (ne→== leaf 0 ne) refl

  -- On tables of the right shape the translation is that of the entry.
  pub vmm_virt_to_phys_entry :
      (laws : MmuLaws mmu) (g : Shape) (ctx : VmmContext) (va : ℕ) (s : Paging)
      → IsShaped mmu hhdm g s
      → HasRoots mmu hhdm g ctx s
      → vmm_virt_to_phys mmu hhdm (some ctx) va s ≡ translation va (entry_of ctx va s)
  unfolding vmm_virt_to_phys virt_to_phys_by
  vmm_virt_to_phys_entry laws g ctx va s shaped roots =
      translated laws g va (get_root_table mmu hhdm ctx va s) s
        (walk_to_leaf_slot mmu hhdm ctx va false s) (look-Looked g ctx va s shaped roots)

module _ (mmu : Mmu) (hhdm : ℕ) (g g' : Shape) (s s' : Paging)
    (grows : Grows mmu hhdm g g' s s') where
  Grows-IsRoot : (t : ℕ) → IsRoot g t → IsRoot g' t
  Grows-IsRoot t (ne, lv, rg) =
      let same = grows.levels t (λ e. omega (arith, e, lv)) in (ne, same.0 ∙ lv, same.1 ∙ rg)

  Grows-kernel_root : kernel_root mmu hhdm s' ≡ kernel_root mmu hhdm s
  Grows-kernel_root =
      ap (λ x. mmu.get_kernel_root x s'.upper_root) grows.registers.0
      ∙ ap (λ x. mmu.get_kernel_root s.lower_root x) grows.registers.1

  pub Grows-HasRoots : (ctx : VmmContext) → HasRoots mmu hhdm g ctx s → HasRoots mmu hhdm g' ctx s'
  Grows-HasRoots ctx (user, kernel) = (
    Grows-IsRoot ctx.root_virt user,
    subst (λ r. IsRoot g' (pmm_phys_to_virt hhdm r)) (sym Grows-kernel_root)
        (Grows-IsRoot (pmm_phys_to_virt hhdm (kernel_root mmu hhdm s)) kernel),
  )

  pub Grows-get_root_table :
      (ctx : VmmContext) (va : ℕ)
      → get_root_table mmu hhdm ctx va s' ≡ get_root_table mmu hhdm ctx va s
  unfolding get_root_table
  Grows-get_root_table ctx va =
      ap (λ r. if leb vmm_addr_split va then pmm_phys_to_virt hhdm r else ctx.root_virt)
        Grows-kernel_root

  -- What a step that makes room for tables leaves alone.
  pub Grows-entry_of :
      (ctx : VmmContext) (va : ℕ)
      → HasRoots mmu hhdm g ctx s
      → entry_of mmu hhdm ctx va s' ≡ entry_of mmu hhdm ctx va s
  Grows-entry_of ctx va roots =
      let is = get_root_table-IsRoot mmu hhdm g ctx va s roots in
      ap (λ t. leaf_entry mmu hhdm va 3 t s') (Grows-get_root_table ctx va)
      ∙ grows.leaves va 3 (get_root_table mmu hhdm ctx va s) is.1 (omega arith)

module _ (mmu : Mmu) (laws : MmuLaws mmu) (hhdm : ℕ) where
  -- The tables after a call of `vmm_map_page` or `vmm_unmap_page` on a context that has roots.
  abbrev pub IsSound : VmmContext → Paging → Type 0
  IsSound ctx s = (g : Shape) × IsShaped mmu hhdm g s × HasRoots mmu hhdm g ctx s

  abbrev pub phys_of : VmmContext → ℕ → Paging → ℕ
  phys_of ctx va s = vmm_virt_to_phys mmu hhdm (some ctx) va s

  -- The page is mapped, or there was no page left for a table and nothing is mapped anew.
  abbrev pub Mapped : VmmContext → ℕ → ℕ → Paging → ℤ × Paging → Type 0
  Mapped ctx va pa s (result, s') =
      IsSound ctx s'
      × (((result ≡ negsuc 0) × (s'.frames ≡ []) × (phys_of ctx va s' ≡ phys_of ctx va s))
          ⊎ ((result ≡ pos 0) × (phys_of ctx va s' ≡ pa + va % page_size)))

  pub translation-make :
      (va pa flags : ℕ)
      → IsFrame pa
      → translation mmu hhdm va (mmu.make_pte pa (set_bit 0 flags) false) ≡ pa + va % page_size
  translation-make va pa flags frame =
      let p = laws.present-make pa (set_bit 0 flags) false frame (ground arith) in
      rw (p, laws.phys-make pa (set_bit 0 flags) false frame) refl

  pub get_root_table_written :
      (ctx : VmmContext) (va : ℕ) (leaf index pte : ℕ) (s : Paging)
      → get_root_table mmu hhdm ctx va (set_entry mmu hhdm leaf index pte s)
        ≡ get_root_table mmu hhdm ctx va s
  unfolding get_root_table
  get_root_table_written ctx va leaf index pte s = refl

  pub map_leaf_ne :
      (va pa flags leaf : ℕ) (s : Paging)
      → leaf ≢ 0
      → map_leaf mmu hhdm va pa flags (leaf, s) ≡ (
        pos 0,
        set_entry mmu hhdm leaf (vmm_index va 0) (mmu.make_pte pa (set_bit 0 flags) false) s,
      )
  unfolding map_leaf
  map_leaf_ne va pa flags leaf s ne = rw (ne→== leaf 0 ne) refl

  map_leaf-Mapped :
      (g : Shape) (ctx : VmmContext) (va pa flags : ℕ) (s : Paging) (r : ℕ × Paging)
      → IsShaped mmu hhdm g s
      → HasRoots mmu hhdm g ctx s
      → IsFrame pa
      → Walked mmu laws hhdm g s va 3 (get_root_table mmu hhdm ctx va s) r
      → Mapped ctx va pa s (map_leaf mmu hhdm va pa flags r)
  unfolding map_leaf
  map_leaf-Mapped g ctx va pa flags s (leaf, s1) shaped roots frame
        (g1, shaped1, grows, inl (e, out)) =
      let roots1 = Grows-HasRoots mmu hhdm g g1 s s1 grows ctx roots in
      let same : phys_of ctx va s1 ≡ phys_of ctx va s =
        vmm_virt_to_phys_entry mmu hhdm laws g1 ctx va s1 shaped1 roots1
        ∙ ap (translation mmu hhdm va) (Grows-entry_of mmu hhdm g g1 s s1 grows ctx va roots)
        ∙ sym (vmm_virt_to_phys_entry mmu hhdm laws g ctx va s shaped roots) in
      subst (λ l. Mapped ctx va pa s (map_leaf mmu hhdm va pa flags (l, s1))) (sym e)
        ((g1, shaped1, roots1), inl (refl, out, same))
  map_leaf-Mapped g ctx va pa flags s (leaf, s1) shaped roots frame
        (g1, shaped1, grows, inr (ne, lv, rg, path)) =
      let roots1 = Grows-HasRoots mmu hhdm g g1 s s1 grows ctx roots in
      let pte = mmu.make_pte pa (set_bit 0 flags) false in
      let s2 = set_entry mmu hhdm leaf (vmm_index va 0) pte s1 in
      let shaped2 = written-IsShaped mmu hhdm g1 s1 va leaf pte lv shaped1 in
      let is = get_root_table-IsRoot mmu hhdm g1 ctx va s1 roots1 in
      let path1 =
        subst (λ t. Reaches mmu hhdm va 3 t leaf s1)
          (sym (Grows-get_root_table mmu hhdm g g1 s s1 grows ctx va)) path in
      let entry : entry_of mmu hhdm ctx va s2 ≡ pte =
        ap (λ t. leaf_entry mmu hhdm va 3 t s2)
          (get_root_table_written ctx va leaf (vmm_index va 0) pte s1)
        ∙ written_here mmu hhdm g1 s1 va leaf pte lv 3 (get_root_table mmu hhdm ctx va s1)
            (omega arith) shaped1 is.1 path1 in
      let phys : phys_of ctx va s2 ≡ pa + va % page_size =
        vmm_virt_to_phys_entry mmu hhdm laws g1 ctx va s2 shaped2 roots1
        ∙ ap (translation mmu hhdm va) entry
        ∙ translation-make va pa flags frame in
      subst (Mapped ctx va pa s) (sym (map_leaf_ne va pa flags leaf s1 ne))
        ((g1, shaped2, roots1), inr (refl, phys))

-- On tables of the right shape `vmm_map_page` of a page keeps them so. It returns 0, and then the
-- address translates to the same place in that page; or it returns -1, and then no page is free and
-- the address translates to what it did.
pub vmm_map_page-vmm_virt_to_phys :
    (mmu : Mmu) (laws : MmuLaws mmu) (hhdm : ℕ) (g : Shape) (ctx : VmmContext) (va pa flags : ℕ)
    (s : Paging)
    → IsShaped mmu hhdm g s
    → HasRoots mmu hhdm g ctx s
    → IsFrame pa
    → Mapped mmu laws hhdm ctx va pa s (vmm_map_page mmu hhdm (some ctx) va pa flags s)
unfolding vmm_map_page
vmm_map_page-vmm_virt_to_phys mmu laws hhdm g ctx va pa flags s shaped roots frame =
    map_leaf-Mapped mmu laws hhdm g ctx va pa flags s (walk_to_leaf_slot mmu hhdm ctx va true s)
      shaped roots frame (make-Walked mmu hhdm laws g ctx va s shaped roots)
