-- ===== src/Vmm/Others.antt =====
-- `vmm_map_page` and `vmm_unmap_page` of kernel/src/mm/vmm.c at the other pages, and `vmm_unmap_page`
-- at its own.
use pros.Common.{
  ℕ, ◌≡◌, ◌≢◌, ◌⊎◌, inl, inr, refl, sym, ap, ◌∙◌, true, false, some, arith, if◌then◌else◌,
  Bool-cases, ne→==,
}
use pros.Memory.{ℤ, pos, negsuc}
use pros.Arch.{set_bit, Paging, Mmu, MmuLaws}
use pros.Vmm.{
  vmm_index, VmmContext, get_root_table, walk_to_leaf_slot, map_leaf, vmm_map_page, is_mapped,
  vmm_unmap_page, set_entry,
}
use pros.Vmm.Shape.{Shape, IsShaped, leaf_entry, region_of}
use pros.Vmm.Walk.{Reaches, Walked}
use pros.Vmm.Leaf.{page_number, Looked, written-IsShaped, written_here, written_there}
use pros.Vmm.Map.{
  HasRoots, translation, entry_of, Grows-HasRoots, Grows-entry_of, phys_of, IsSound,
  vmm_virt_to_phys_entry, look-Looked, make-Walked, get_root_table-IsRoot, get_root_table_written,
  map_leaf_ne,
}

module _ (mmu : Mmu) (laws : MmuLaws mmu) (hhdm : ℕ) where
  -- Equal entries, equal translations.
  phys_of_same :
      (g g' : Shape) (ctx : VmmContext) (va : ℕ) (s s' : Paging)
      → IsShaped mmu hhdm g s
      → HasRoots mmu hhdm g ctx s
      → IsShaped mmu hhdm g' s'
      → HasRoots mmu hhdm g' ctx s'
      → entry_of mmu hhdm ctx va s' ≡ entry_of mmu hhdm ctx va s
      → phys_of mmu laws hhdm ctx va s' ≡ phys_of mmu laws hhdm ctx va s
  phys_of_same g g' ctx va s s' shaped roots shaped' roots' e =
      vmm_virt_to_phys_entry mmu hhdm laws g' ctx va s' shaped' roots'
      ∙ ap (translation mmu hhdm va) e
      ∙ sym (vmm_virt_to_phys_entry mmu hhdm laws g ctx va s shaped roots)

  written-entry_of :
      (g : Shape) (ctx : VmmContext) (va vb leaf pte : ℕ) (s : Paging)
      → IsShaped mmu hhdm g s
      → HasRoots mmu hhdm g ctx s
      → page_number vb ≢ page_number va
      → g.level leaf ≡ 0
      → g.region leaf ≡ region_of va 0
      → entry_of mmu hhdm ctx vb (set_entry mmu hhdm leaf (vmm_index va 0) pte s)
        ≡ entry_of mmu hhdm ctx vb s
  written-entry_of g ctx va vb leaf pte s shaped roots other lv rg =
      let is = get_root_table-IsRoot mmu hhdm g ctx vb s roots in
      let s' = set_entry mmu hhdm leaf (vmm_index va 0) pte s in
      ap (λ t. leaf_entry mmu hhdm vb 3 t s')
        (get_root_table_written mmu laws hhdm ctx vb leaf (vmm_index va 0) pte s)
      ∙ written_there mmu hhdm g s va leaf pte lv vb 3 (get_root_table mmu hhdm ctx vb s)
          (omega arith) shaped rg other is.1 is.2

  written_other :
      (g : Shape) (ctx : VmmContext) (va vb leaf pte : ℕ) (s : Paging)
      → IsShaped mmu hhdm g s
      → HasRoots mmu hhdm g ctx s
      → page_number vb ≢ page_number va
      → g.level leaf ≡ 0
      → g.region leaf ≡ region_of va 0
      → phys_of mmu laws hhdm ctx vb (set_entry mmu hhdm leaf (vmm_index va 0) pte s)
        ≡ phys_of mmu laws hhdm ctx vb s
  written_other g ctx va vb leaf pte s shaped roots other lv rg =
      phys_of_same g g ctx vb s (set_entry mmu hhdm leaf (vmm_index va 0) pte s) shaped roots
        (written-IsShaped mmu hhdm g s va leaf pte lv shaped) roots
        (written-entry_of g ctx va vb leaf pte s shaped roots other lv rg)

  map_other :
      (g : Shape) (ctx : VmmContext) (t va vb pa flags : ℕ) (s : Paging) (r : ℕ × Paging)
      → IsShaped mmu hhdm g s
      → HasRoots mmu hhdm g ctx s
      → page_number vb ≢ page_number va
      → Walked mmu laws hhdm g s va 3 t r
      → phys_of mmu laws hhdm ctx vb (map_leaf mmu hhdm va pa flags r).1
        ≡ phys_of mmu laws hhdm ctx vb s
  unfolding map_leaf
  map_other g ctx t va vb pa flags s (leaf, s1) shaped roots other
        (g1, shaped1, grows, inl (e, out)) =
      let roots1 = Grows-HasRoots mmu hhdm g g1 s s1 grows ctx roots in
      ap (λ l. phys_of mmu laws hhdm ctx vb (map_leaf mmu hhdm va pa flags (l, s1)).1) e
      ∙ phys_of_same g g1 ctx vb s s1 shaped roots shaped1 roots1
          (Grows-entry_of mmu hhdm g g1 s s1 grows ctx vb roots)
  map_other g ctx t va vb pa flags s (leaf, s1) shaped roots other
        (g1, shaped1, grows, inr (ne, lv, rg, path)) =
      let roots1 = Grows-HasRoots mmu hhdm g g1 s s1 grows ctx roots in
      let pte = mmu.make_pte pa (set_bit 0 flags) false in
      ap (λ x. phys_of mmu laws hhdm ctx vb x.1) (map_leaf_ne mmu laws hhdm va pa flags leaf s1 ne)
      ∙ written_other g1 ctx va vb leaf pte s1 shaped1 roots1 other lv rg
      ∙ phys_of_same g g1 ctx vb s s1 shaped roots shaped1 roots1
          (Grows-entry_of mmu hhdm g g1 s s1 grows ctx vb roots)

  -- What `vmm_unmap_page` does with the table of level 0, 0 for none.
  unmap_leaf : ℕ → ℕ → Paging → ℤ × Paging
  unmap_leaf va leaf s =
      if is_mapped mmu hhdm leaf va s
      then (pos 0, set_entry mmu hhdm leaf (vmm_index va 0) 0 s)
      else (negsuc 0, s)

  unmap_other :
      (g : Shape) (ctx : VmmContext) (t va vb : ℕ) (s : Paging) (r : ℕ × Paging)
      → IsShaped mmu hhdm g s
      → HasRoots mmu hhdm g ctx s
      → page_number vb ≢ page_number va
      → Looked mmu hhdm g s va 3 t r
      → phys_of mmu laws hhdm ctx vb (unmap_leaf va r.0 s).1 ≡ phys_of mmu laws hhdm ctx vb s
  unfolding unmap_leaf
  unmap_other g ctx t va vb s (leaf, s') shaped roots other (same, inl (e, e')) =
      ap (λ l. phys_of mmu laws hhdm ctx vb (unmap_leaf va l s).1) e
  unmap_other g ctx t va vb s (leaf, s') shaped roots other (same, inr (ne, lv, rg, path, e)) =
      elim (Bool-cases (is_mapped mmu hhdm leaf va s)) [
        | inl p ↦ rw (p, unmap_leaf) (written_other g ctx va vb leaf 0 s shaped roots other lv rg)
        | inr p ↦ rw (p, unmap_leaf) refl
      ]

  abbrev pub Unmapped : VmmContext → ℕ → Paging → ℤ × Paging → Type 0
  Unmapped ctx va s (result, s') =
      IsSound mmu laws hhdm ctx s'
      × (s'.frames ≡ s.frames)
      × (phys_of mmu laws hhdm ctx va s' ≡ 0)
      × (((result ≡ negsuc 0)
            × (s' ≡ s)
            × (mmu.pte_is_present (entry_of mmu hhdm ctx va s) ≡ false))
          ⊎ ((result ≡ pos 0) × (mmu.pte_is_present (entry_of mmu hhdm ctx va s) ≡ true)))

  translation_zero : (va : ℕ) → translation mmu hhdm va 0 ≡ 0
  translation_zero va = rw laws.present_zero refl

  unmap_none :
      (g : Shape) (ctx : VmmContext) (va leaf : ℕ) (s : Paging)
      → IsShaped mmu hhdm g s
      → HasRoots mmu hhdm g ctx s
      → is_mapped mmu hhdm leaf va s ≡ false
      → mmu.pte_is_present (entry_of mmu hhdm ctx va s) ≡ false
      → Unmapped ctx va s (unmap_leaf va leaf s)
  unfolding unmap_leaf
  unmap_none g ctx va leaf s shaped roots p absent = rw p (
    (g, shaped, roots),
    refl,
    vmm_virt_to_phys_entry mmu hhdm laws g ctx va s shaped roots ∙ rw absent refl,
    inl (refl, refl, absent),
  )

  unmap_some :
      (g : Shape) (ctx : VmmContext) (va leaf : ℕ) (s : Paging)
      → IsShaped mmu hhdm g s
      → HasRoots mmu hhdm g ctx s
      → is_mapped mmu hhdm leaf va s ≡ true
      → g.level leaf ≡ 0
      → Reaches mmu hhdm va 3 (get_root_table mmu hhdm ctx va s) leaf s
      → mmu.pte_is_present (entry_of mmu hhdm ctx va s) ≡ true
      → Unmapped ctx va s (unmap_leaf va leaf s)
  unfolding unmap_leaf
  unmap_some g ctx va leaf s shaped roots p lv path present =
      let s' = set_entry mmu hhdm leaf (vmm_index va 0) 0 s in
      let shaped' = written-IsShaped mmu hhdm g s va leaf 0 lv shaped in
      let is = get_root_table-IsRoot mmu hhdm g ctx va s roots in
      let entry : entry_of mmu hhdm ctx va s' ≡ 0 =
        ap (λ t. leaf_entry mmu hhdm va 3 t s')
          (get_root_table_written mmu laws hhdm ctx va leaf (vmm_index va 0) 0 s)
        ∙ written_here mmu hhdm g s va leaf 0 lv 3 (get_root_table mmu hhdm ctx va s) (omega arith)
            shaped is.1 path in
      rw p (
        (g, shaped', roots),
        refl,
        vmm_virt_to_phys_entry mmu hhdm laws g ctx va s' shaped' roots
            ∙ ap (translation mmu hhdm va) entry
            ∙ translation_zero va,
        inr (refl, present),
      )

  unmap_leaf-Unmapped :
      (g : Shape) (ctx : VmmContext) (va : ℕ) (s : Paging) (r : ℕ × Paging)
      → IsShaped mmu hhdm g s
      → HasRoots mmu hhdm g ctx s
      → Looked mmu hhdm g s va 3 (get_root_table mmu hhdm ctx va s) r
      → Unmapped ctx va s (unmap_leaf va r.0 s)
  unmap_leaf-Unmapped g ctx va s (leaf, s') shaped roots (same, inl (e, e')) =
      unmap_none g ctx va leaf s shaped roots (ap (λ l. is_mapped mmu hhdm l va s) e)
        (ap mmu.pte_is_present e' ∙ laws.present_zero)
  unmap_leaf-Unmapped g ctx va s (leaf, s') shaped roots (same, inr (ne, lv, rg, path, e)) =
      let here : is_mapped mmu hhdm leaf va s ≡ mmu.pte_is_present (entry_of mmu hhdm ctx va s) =
        ap (λ b. if b then false else mmu.pte_is_present (s.entry leaf (vmm_index va 0)))
          (ne→== leaf 0 ne)
        ∙ ap mmu.pte_is_present (sym e) in
      elim (Bool-cases (is_mapped mmu hhdm leaf va s)) [
        | inl p ↦ unmap_some g ctx va leaf s shaped roots p lv path (sym here ∙ p)
        | inr p ↦ unmap_none g ctx va leaf s shaped roots p (sym here ∙ p)
      ]

-- On tables of the right shape neither `vmm_map_page` nor `vmm_unmap_page`, whether it fails or not,
-- changes what an address of another page translates to, in this context or in another one.
pub vmm_map_page-other :
    (mmu : Mmu) (laws : MmuLaws mmu) (hhdm : ℕ) (g : Shape) (ctx other : VmmContext)
    (va vb pa flags : ℕ) (s : Paging)
    → IsShaped mmu hhdm g s
    → HasRoots mmu hhdm g ctx s
    → HasRoots mmu hhdm g other s
    → page_number vb ≢ page_number va
    → (phys_of mmu laws hhdm other vb (vmm_map_page mmu hhdm (some ctx) va pa flags s).1
        ≡ phys_of mmu laws hhdm other vb s)
      × (phys_of mmu laws hhdm other vb (vmm_unmap_page mmu hhdm (some ctx) va s).1
          ≡ phys_of mmu laws hhdm other vb s)
unfolding vmm_map_page vmm_unmap_page unmap_leaf
vmm_map_page-other mmu laws hhdm g ctx other va vb pa flags s shaped roots roots' ne = (
  map_other mmu laws hhdm g other (get_root_table mmu hhdm ctx va s) va vb pa flags s
      (walk_to_leaf_slot mmu hhdm ctx va true s) shaped roots' ne
      (make-Walked mmu hhdm laws g ctx va s shaped roots),
  unmap_other mmu laws hhdm g other (get_root_table mmu hhdm ctx va s) va vb s
      (walk_to_leaf_slot mmu hhdm ctx va false s) shaped roots' ne
      (look-Looked mmu hhdm g ctx va s shaped roots),
)

-- On tables of the right shape `vmm_unmap_page` keeps them so, frees no page and leaves the address
-- translated to nothing (0). It returns 0 where the entry of the address was present; where it was not,
-- it returns -1 and changes nothing.
pub vmm_unmap_page_lem :
    (mmu : Mmu) (laws : MmuLaws mmu) (hhdm : ℕ) (g : Shape) (ctx : VmmContext) (va : ℕ) (s : Paging)
    → IsShaped mmu hhdm g s
    → HasRoots mmu hhdm g ctx s
    → Unmapped mmu laws hhdm ctx va s (vmm_unmap_page mmu hhdm (some ctx) va s)
unfolding vmm_unmap_page unmap_leaf
vmm_unmap_page_lem mmu laws hhdm g ctx va s shaped roots =
    unmap_leaf-Unmapped mmu laws hhdm g ctx va s (walk_to_leaf_slot mmu hhdm ctx va false s) shaped
      roots (look-Looked mmu hhdm g ctx va s shaped roots)
