-- ===== src/Vmm/Handle.antt =====
-- Which faults `vmm_handle_page_fault` of kernel/src/mm/vmm.c handles, those on demand aside.
use pros.Common.{
  ℕ, ◌+◌, ◌-◌, ◌%◌, ◌^◌, ◌≤◌, ◌<◌, ◌≡◌, ◌⊎◌, inl, inr, refl, sym, ap, ◌∙◌, Bool, true, false,
  Option, none, some, [], arith, add64, u64_mod, ltb, ltb→lt, if◌then◌else◌, Bool-cases, ne→==,
}
use mathlib.Core.Path.{subst}
use pros.Memory.{ℤ}
use pros.Pmm.{page_size}
use pros.Arch.{Paging, Mmu, MmuLaws}
use pros.Vmm.{VmmContext, vmm_map_page, page_of}
use pros.Vmm.Shape.{Shape, IsShaped}
use pros.Vmm.Map.{HasRoots, phys_of, IsSound, Mapped, vmm_map_page-vmm_virt_to_phys}
use pros.Vmm.Fault.{
  succeeded, outside, try_handle_hhdm_mmio_fault, try_handle_demand_page_fault,
  vmm_handle_page_fault,
}
use pros.Vmm.OnDemand.{phys_of_page}

-- An address outside a range.
abbrev pub IsOutside : ℕ → ℕ → ℕ → Type 0
IsOutside lo hi addr = (addr < lo) ⊎ (hi ≤ addr)

-- An address outside the range of the context, if there is one.
abbrev pub Declines : Option VmmContext → ℕ → Type 0
Declines none fault = Unit
Declines (some ctx) fault = IsOutside ctx.demand_page_lo ctx.demand_page_hi fault

outside_lem : (lo hi addr : ℕ) → IsOutside lo hi addr → outside lo hi addr ≡ true
outside_lem lo hi addr (inl below) = ground (arith, below)
outside_lem lo hi addr (inr above) = ground (arith, above)

not_on_demand :
    (mmu : Mmu) (hhdm fault error : ℕ) (current : Option VmmContext) (s : Paging)
    → (mmu.fault_is_present error ≡ true) ⊎ Declines current fault
    → try_handle_demand_page_fault mmu hhdm current fault error s ≡ (false, s)
unfolding try_handle_demand_page_fault
not_on_demand mmu hhdm fault error none s h = refl
not_on_demand mmu hhdm fault error (some ctx) s (inl p) = ground (arith, p)
not_on_demand mmu hhdm fault error (some ctx) s (inr p) =
    rw (outside_lem ctx.demand_page_lo ctx.demand_page_hi fault p) refl

module _ (mmu : Mmu) (laws : MmuLaws mmu) (hhdm max_phys : ℕ) where
  -- Mapped to the device that the address stands for; or not touched, since the page was present or
  -- the address is none of the direct map; or no page is left over for the tables.
  abbrev pub Handled : VmmContext → ℕ → ℕ → Paging → Bool × Paging → Type 0
  Handled kernel fault error s (handled, s') =
      ((handled ≡ true)
        × (mmu.fault_is_present error ≡ false)
        × (hhdm ≤ fault)
        × (fault < hhdm + max_phys)
        × IsSound mmu laws hhdm kernel s'
        × (phys_of mmu laws hhdm kernel fault s' ≡ fault - hhdm))
      ⊎ (((handled ≡ false)
            × (s' ≡ s)
            × ((mmu.fault_is_present error ≡ true) ⊎ IsOutside hhdm (hhdm + max_phys) fault))
          ⊎ ((handled ≡ false)
              × (s'.frames ≡ [])
              × (phys_of mmu laws hhdm kernel (fault - fault % page_size) s'
                  ≡ phys_of mmu laws hhdm kernel (fault - fault % page_size) s)))

  Mapped-Handled :
      (g : Shape) (kernel : VmmContext) (fault error : ℕ) (s : Paging) (r : ℤ × Paging)
      → hhdm % page_size ≡ 0
      → hhdm + page_size ≤ fault
      → fault < hhdm + max_phys
      → mmu.fault_is_present error ≡ false
      → Mapped mmu laws hhdm kernel (page_of fault) (page_of (fault - hhdm)) s r
      → Handled kernel fault error s (succeeded r.0, r.1)
  Mapped-Handled g kernel fault error s (result, s') aligned lo hi absent
        (sound, inl (failed, out, same)) =
      let e : page_of fault ≡ fault - fault % page_size = omega arith in
      inr (
        inr (
          ap succeeded failed,
          out,
          subst (λ x. phys_of mmu laws hhdm kernel x s' ≡ phys_of mmu laws hhdm kernel x s) e same,
        ))
  Mapped-Handled g kernel fault error s (result, s') aligned lo hi absent
        (sound, inr (done, there)) =
      let (g', shaped, roots) = sound in
      let phys = page_of (fault - hhdm) in
      let at =
        phys_of_page mmu laws hhdm g' kernel fault phys s' shaped roots (omega (arith, lo)) there in
      let sum : phys + fault % page_size ≡ fault - hhdm = omega (arith, aligned, lo) in
      inl (ap succeeded done, absent, omega (arith, lo), hi, sound, at ∙ sum)

  -- The part of the direct map, put together with the other part, which declines.
  handle_declined :
      (kernel : VmmContext) (current : Option VmmContext) (fault error : ℕ) (s : Paging)
      → (mmu.fault_is_present error ≡ true) ⊎ Declines current fault
      → Handled kernel fault error s
          (try_handle_hhdm_mmio_fault mmu hhdm max_phys (some kernel) fault error s)
      → Handled kernel fault error s
          (vmm_handle_page_fault mmu hhdm max_phys (some kernel) current fault error s)
  unfolding vmm_handle_page_fault
  handle_declined kernel current fault error s declines h =
      go (try_handle_hhdm_mmio_fault mmu hhdm max_phys (some kernel) fault error s) h
    where
      go :
          (r : Bool × Paging)
          → Handled kernel fault error s r
          → Handled kernel fault error s (
              if r.0
              then (true, r.1)
              else try_handle_demand_page_fault mmu hhdm current fault error r.1)
      go (true, s') h = h
      go (false, s') h =
          subst (Handled kernel fault error s)
            (sym (not_on_demand mmu hhdm fault error current s' declines)) h

-- On tables of the right shape, a fault at a page that was present, or outside the range of the current
-- context that is demand-paged. Where the page was present or the address is none of the direct map, it
-- is not handled and nothing is changed. Else the address is mapped to the place in physical memory that
-- it stands for, and the fault is handled; or it is not, and then no page is free and the page of the
-- address translates to what it did. The direct map begins at a page above 0, and its top, which is no
-- more than 2^48 above, does not wrap; the address is not in its first page.
pub vmm_handle_page_fault_lem :
    (mmu : Mmu) (laws : MmuLaws mmu) (hhdm max_phys : ℕ) (g : Shape) (kernel : VmmContext)
    (current : Option VmmContext) (fault error : ℕ) (s : Paging)
    → IsShaped mmu hhdm g s
    → HasRoots mmu hhdm g kernel s
    → 0 < hhdm
    → hhdm % page_size ≡ 0
    → max_phys ≤ 2 ^ 48
    → hhdm + max_phys < u64_mod
    → (fault < hhdm) ⊎ (hhdm + page_size ≤ fault)
    → (mmu.fault_is_present error ≡ true) ⊎ Declines current fault
    → Handled mmu laws hhdm max_phys kernel fault error s
        (vmm_handle_page_fault mmu hhdm max_phys (some kernel) current fault error s)
unfolding try_handle_hhdm_mmio_fault
vmm_handle_page_fault_lem mmu laws hhdm max_phys g kernel current fault error s shaped roots pos
      aligned small no_wrap first declines =
    handle_declined mmu laws hhdm max_phys kernel current fault error s declines
      (elim (Bool-cases (outside hhdm (hhdm + max_phys) fault)) [
        | inl out ↦
            rw (ne→== hhdm 0 (omega (arith, pos)), top, out)
              (inr (inl (refl, refl, inr (outside_is hhdm (hhdm + max_phys) fault out))))
        | inr inside ↦ elim (Bool-cases (mmu.fault_is_present error)) [
          | inl present ↦
              rw (ne→== hhdm 0 (omega (arith, pos)), top, inside, present)
                (inr (inl (refl, refl, inl refl)))
          | inr absent ↦
              let (lo, hi) = inside_is hhdm (hhdm + max_phys) fault inside in
              let above : hhdm + page_size ≤ fault = omega (arith, lo, first) in
              let mapped =
                vmm_map_page mmu hhdm (some kernel) (page_of fault) (page_of (fault - hhdm)) 10 s in
              let call : try_handle_hhdm_mmio_fault mmu hhdm max_phys (some kernel) fault error s
                  ≡ (succeeded mapped.0, mapped.1) =
                rw (ne→== hhdm 0 (omega (arith, pos)), top, inside, absent) refl in
              subst (Handled mmu laws hhdm max_phys kernel fault error s) (sym call) (
                Mapped-Handled mmu laws hhdm max_phys g kernel fault error s mapped aligned above hi
                  absent
                  (vmm_map_page-vmm_virt_to_phys mmu laws hhdm g kernel (page_of fault)
                    (page_of (fault - hhdm)) 10 s shaped roots
                    (omega (arith, aligned, above, hi, small))))
        ]
      ])
  where
    top : add64 hhdm max_phys ≡ hhdm + max_phys
    top = omega (arith, no_wrap)

    outside_is : (lo hi addr : ℕ) → outside lo hi addr ≡ true → IsOutside lo hi addr
    outside_is lo hi addr e = elim (Bool-cases (ltb addr lo)) [
      | inl below ↦ inl (ltb→lt addr lo below)
      | inr above ↦ inr (ground (arith, e, above))
    ]

    inside_is : (lo hi addr : ℕ) → outside lo hi addr ≡ false → (lo ≤ addr) × (addr < hi)
    inside_is lo hi addr e = ground (arith, e)
