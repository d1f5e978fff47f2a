-- ===== src/Vmm/OnDemand.antt =====
-- What `try_handle_demand_page_fault` of kernel/src/mm/vmm.c does for a fault in its range.
use pros.Common.{
  ℕ, ◌+◌, ◌%◌, ◌≤◌, ◌<◌, ◌≡◌, ◌⊎◌, inl, inr, refl, sym, ap, ◌∙◌, Bool, true, false, some, List, [],
  ◌∷◌, arith, update_eq, leb, if◌then◌else◌, Bool-cases, ne→==,
}
use mathlib.Core.Path.{subst}
use pros.Memory.{ℤ}
use pros.Pmm.{page_size, pmm_phys_to_virt}
use pros.Uaccess.{vmm_addr_split}
use pros.Arch.{Paging, Mmu, MmuLaws, take_frame, free_frame, clear_page}
use pros.Vmm.{VmmContext, kernel_root, get_root_table, walk_to_leaf_slot, vmm_map_page, page_of}
use pros.Vmm.Shape.{Shape, IsShaped, leaf_entry}
use pros.Vmm.Walk.{List-cases}
use pros.Vmm.Map.{
  HasRoots, translation, entry_of, phys_of, IsSound, Mapped, vmm_virt_to_phys_entry, make-Walked,
  vmm_map_page-vmm_virt_to_phys,
}
use pros.Vmm.Fault.{outside, demand_result, demand_page, try_handle_demand_page_fault}
use pros.Vmm.Demand.{
  taken, taken-IsShaped, taken-Avoids, taken_call, frames-IsFree, map_outside, leaf_entry_page,
}

module _ (mmu : Mmu) (laws : MmuLaws mmu) (hhdm : ℕ) where
  -- Handled, the first free page being mapped there with zeros in it; or not, where no page is free,
  -- or where the tables took all the others and the first free page has been given back.
  abbrev pub Demanded : VmmContext → ℕ → Paging → Bool × Paging → Type 0
  Demanded ctx fault s (handled, s') =
      ((handled ≡ true)
        × IsSound mmu laws hhdm ctx s'
        × ((phys : ℕ) × (fs : List ℕ) × (s.frames ≡ phys ∷ fs)
            × (phys_of mmu laws hhdm ctx fault s' ≡ phys + fault % page_size)
            × ((i : ℕ) → s'.entry (phys + hhdm) i ≡ 0)))
      ⊎ ((handled ≡ false)
          × (((s.frames ≡ []) × (s' ≡ s))
              ⊎ ((phys : ℕ) × (fs : List ℕ) × (s.frames ≡ phys ∷ fs) × (s'.frames ≡ phys ∷ []))))

  translation_page :
      (fault pte phys : ℕ)
      → 0 < phys
      → translation mmu hhdm (page_of fault) pte ≡ phys + page_of fault % page_size
      → translation mmu hhdm fault pte ≡ phys + fault % page_size
  translation_page fault pte phys nz e = elim (Bool-cases (mmu.pte_is_present pte)) [
    | inl p ↦ rw p (
        omega (
          arith,
          ap (λ b. if b then mmu.pte_get_phys pte + page_of fault % page_size else 0) (sym p) ∙ e,
        ))
    | inr p ↦ absurd (
        omega (
          arith,
          nz,
          ap (λ b. if b then mmu.pte_get_phys pte + page_of fault % page_size else 0) (sym p) ∙ e,
        ))
  ]

  get_root_table_page :
      (ctx : VmmContext) (fault : ℕ) (s : Paging)
      → get_root_table mmu hhdm ctx fault s ≡ get_root_table mmu hhdm ctx (page_of fault) s
  unfolding get_root_table
  get_root_table_page ctx fault s =
      let e : leb vmm_addr_split fault ≡ leb vmm_addr_split (page_of fault) = ground arith in
      ap (λ b. if b then pmm_phys_to_virt hhdm (kernel_root mmu hhdm s) else ctx.root_virt) e

  pub phys_of_page :
      (g : Shape) (ctx : VmmContext) (fault phys : ℕ) (s : Paging)
      → IsShaped mmu hhdm g s
      → HasRoots mmu hhdm g ctx s
      → 0 < phys
      → phys_of mmu laws hhdm ctx (page_of fault) s ≡ phys + page_of fault % page_size
      → phys_of mmu laws hhdm ctx fault s ≡ phys + fault % page_size
  phys_of_page g ctx fault phys s shaped roots nz e =
      let same : entry_of mmu hhdm ctx fault s ≡ entry_of mmu hhdm ctx (page_of fault) s =
        ap (λ t. leaf_entry mmu hhdm fault 3 t s) (get_root_table_page ctx fault s)
        ∙ leaf_entry_page mmu laws hhdm fault 3 (get_root_table mmu hhdm ctx (page_of fault) s) s
            (omega arith) in
      let here =
        sym (vmm_virt_to_phys_entry mmu hhdm laws g ctx (page_of fault) s shaped roots) ∙ e in
      vmm_virt_to_phys_entry mmu hhdm laws g ctx fault s shaped roots
      ∙ ap (translation mmu hhdm fault) same
      ∙ translation_page fault (entry_of mmu hhdm ctx (page_of fault) s) phys nz here

  demand_result-Demanded :
      (ctx : VmmContext) (fault phys : ℕ) (fs : List ℕ) (s s1 : Paging) (r : ℤ × Paging)
      → s.frames ≡ phys ∷ fs
      → 0 < phys
      → Mapped mmu laws hhdm ctx (page_of fault) phys s1 r
      → ((i : ℕ) → r.1.entry (phys + hhdm) i ≡ 0)
      → Demanded ctx fault s (demand_result mmu hhdm phys r)
  unfolding demand_result free_frame
  demand_result-Demanded ctx fault phys fs s s1 (result, s') split nz
        (sound, inl (failed, out, same)) zeros =
      rw (failed, ne→== phys 0 (omega arith))
        (inr (refl, inr (phys, fs, split, ap (λ xs. phys ∷ xs) out)))
  demand_result-Demanded ctx fault phys fs s s1 (result, s') split nz (sound, inr (done, there))
        zeros =
      let (g, shaped, roots) = sound in
      rw done (
        inl (
          refl,
          sound,
          (phys, fs, split, phys_of_page g ctx fault phys s' shaped roots nz there, zeros),
        ))

  demand_none :
      (ctx : VmmContext) (fault : ℕ) (s : Paging)
      → s.frames ≡ []
      → Demanded ctx fault s (demand_page mmu hhdm ctx fault (take_frame [] s))
  unfolding demand_page take_frame
  demand_none ctx fault s out = inr (refl, inl (out, refl))

  demand_call :
      (ctx : VmmContext) (fault phys : ℕ) (fs : List ℕ) (s : Paging)
      → 0 < phys
      → demand_page mmu hhdm ctx fault (take_frame (phys ∷ fs) s)
        ≡ demand_result mmu hhdm phys (
            vmm_map_page mmu hhdm
              (some ctx)
              (page_of fault)
              phys
              6
              (clear_page (pmm_phys_to_virt hhdm phys) (record s { frames = fs })))
  unfolding demand_page take_frame
  demand_call ctx fault phys fs s nz = rw (ne→== phys 0 (omega arith)) refl

  demand_some :
      (g : Shape) (ctx : VmmContext) (fault phys : ℕ) (fs : List ℕ) (s : Paging)
      → IsShaped mmu hhdm g s
      → HasRoots mmu hhdm g ctx s
      → s.frames ≡ phys ∷ fs
      → Demanded ctx fault s (demand_page mmu hhdm ctx fault (take_frame (phys ∷ fs) s))
  unfolding vmm_map_page
  demand_some g ctx fault phys fs s shaped roots split =
      let free = frames-IsFree mmu laws hhdm g s phys fs shaped split in
      let s1 = taken mmu laws hhdm g s phys fs in
      let shaped1 = taken-IsShaped mmu laws hhdm g s phys fs shaped split in
      let mapped =
        vmm_map_page-vmm_virt_to_phys mmu laws hhdm g ctx (page_of fault) phys 6 s1 shaped1 roots
          free.0.0 in
      let kept =
        map_outside mmu laws hhdm g (get_root_table mmu hhdm ctx (page_of fault) s1) (page_of fault)
          phys 6 (phys + hhdm) s1 (walk_to_leaf_slot mmu hhdm ctx (page_of fault) true s1) free.0.2
          (taken-Avoids mmu laws hhdm g s phys fs shaped split)
          (make-Walked mmu hhdm laws g ctx (page_of fault) s1 shaped1 roots) in
      let cleared : (i : ℕ) → s1.entry (phys + hhdm) i ≡ 0 =
        λ i. ap (λ (w : ℕ → ℕ). w i) (update_eq s.entry (phys + hhdm) (λ j. 0)) in
      let call =
        demand_call ctx fault phys fs s free.0.0.0
        ∙ ap
            (λ x.
              demand_result mmu hhdm phys
                (vmm_map_page mmu hhdm (some ctx) (page_of fault) phys 6 x))
            (taken_call mmu laws hhdm g s phys fs shaped split) in
      subst (Demanded ctx fault s) (sym call) (
        demand_result-Demanded ctx fault phys fs s s1
          (vmm_map_page mmu hhdm (some ctx) (page_of fault) phys 6 s1) split free.0.0.0 mapped
          (λ i. kept i ∙ cleared i))

-- On tables of the right shape, a fault in the range of the current context that is demand-paged, at
-- a page that is not present: it is handled, and then the address lies in the page that was the first
-- free one, which is all zeros, and the tables are of the right shape; or it is not, since no page
-- was free, and nothing is changed, or since there were too few for the tables, and then the page that
-- was the first free one is free again, and no other is.
pub try_handle_demand_page_fault_lem :
    (mmu : Mmu) (laws : MmuLaws mmu) (hhdm : ℕ) (g : Shape) (ctx : VmmContext) (fault error : ℕ)
    (s : Paging)
    → IsShaped mmu hhdm g s
    → HasRoots mmu hhdm g ctx s
    → ctx.demand_page_lo ≤ fault
    → fault < ctx.demand_page_hi
    → mmu.fault_is_present error ≡ false
    → Demanded mmu laws hhdm ctx fault s
        (try_handle_demand_page_fault mmu hhdm (some ctx) fault error s)
unfolding try_handle_demand_page_fault
try_handle_demand_page_fault_lem mmu laws hhdm g ctx fault error s shaped roots above below absent =
    let e : outside ctx.demand_page_lo ctx.demand_page_hi fault ≡ false = ground arith in
    rw (e, absent)
      (elim (List-cases s.frames) [
        | inl out ↦
            subst
              (λ xs.
                Demanded mmu laws hhdm ctx fault s
                  (demand_page mmu hhdm ctx fault (take_frame xs s)))
              (sym out) (demand_none mmu laws hhdm ctx fault s out)
        | inr (phys, fs, split) ↦
            subst
              (λ xs.
                Demanded mmu laws hhdm ctx fault s
                  (demand_page mmu hhdm ctx fault (take_frame xs s)))
              (sym split) (demand_some mmu laws hhdm g ctx fault phys fs s shaped roots split)
      ])
