-- ===== src/Vmm/Demand.antt =====
-- Page faults of kernel/src/mm/vmm.c that are handled on demand.
use pros.Common.{
  ℕ, zero, suc, ◌+◌, ◌≤◌, ◌<◌, ◌≡◌, ◌≢◌, inl, inr, refl, sym, ap, ◌∙◌, false, List, ◌∷◌, map, arith,
  add64, update, if◌then◌else◌, All, Distinct, Avoids, ne→==,
}
use mathlib.Core.Path.{subst}
use pros.Pmm.{pmm_phys_to_virt}
use pros.Arch.{set_bit, Paging, Mmu, MmuLaws, clear_page}
use pros.Vmm.{vmm_index, map_leaf, page_of, child_of}
use pros.Vmm.Shape.{Shape, IsFree, IsChild, IsShaped, leaf_entry}
use pros.Vmm.Grow.{Avoids-map}
use pros.Vmm.Walk.{Walked}
use pros.Vmm.Map.{map_leaf_ne}

module _ (mmu : Mmu) (laws : MmuLaws mmu) (hhdm : ℕ) where
  -- A page taken from the free ones, and cleared.
  module _ (g : Shape) (s : Paging) (phys : ℕ) (fs : List ℕ) where
    abbrev pub page : ℕ
    page = phys + hhdm

    abbrev pub taken : Paging
    taken = record s { frames = fs; entry = update s.entry page (λ i. 0) }

    module _ (shaped : IsShaped mmu hhdm g s) (split : s.frames ≡ phys ∷ fs) where
      pub frames-IsFree : All (IsFree mmu hhdm g) (phys ∷ fs)
      frames-IsFree = subst (All (IsFree mmu hhdm g)) split shaped.free

      frames-Distinct : Distinct (phys ∷ fs)
      frames-Distinct = subst Distinct split shaped.distinct

      taken_table : (t i k : ℕ) → g.level t ≡ k → k < 4 → taken.entry t i ≡ s.entry t i
      taken_table t i k lt lo =
          rw (ne→== t page (λ e. omega (arith, lt, lo, frames-IsFree.0.2, ap g.level e))) refl

      taken_child :
          (t i k : ℕ)
          → g.level t ≡ k
          → k < 4
          → child_of mmu hhdm t i taken ≡ child_of mmu hhdm t i s
      taken_child t i k lt lo =
          ap (λ x. pmm_phys_to_virt hhdm (mmu.pte_get_phys x)) (taken_table t i k lt lo)

      pub taken-IsShaped : IsShaped mmu hhdm g taken
      taken-IsShaped = record {
        children = λ t k i lt lo li p.
            let same = taken_table t i (suc k) lt (omega arith) in
            subst (IsChild mmu hhdm g t i k) (sym (taken_child t i (suc k) lt (omega arith)))
              (shaped.children t k i lt lo li (ap mmu.pte_is_present (sym same) ∙ p));
        free = frames-IsFree.1;
        distinct = frames-Distinct.1;
      }

      pub taken-Avoids : Avoids page (map (λ f. f + hhdm) fs)
      taken-Avoids = Avoids-map mmu laws hhdm phys fs frames-Distinct.0

      pub taken_call : clear_page (pmm_phys_to_virt hhdm phys) (record s { frames = fs }) ≡ taken
      unfolding clear_page pmm_phys_to_virt
      taken_call = let e : add64 phys hhdm ≡ page = omega (arith, frames-IsFree) in rw e refl

  -- Mapping writes no page that is neither free nor a table.
  pub map_outside :
      (g : Shape) (t0 va pa flags t : ℕ) (s : Paging) (r : ℕ × Paging)
      → g.level t ≡ 4
      → Avoids t (map (λ f. f + hhdm) s.frames)
      → Walked mmu laws hhdm g s va 3 t0 r
      → (i : ℕ) → (map_leaf mmu hhdm va pa flags r).1.entry t i ≡ s.entry t i
  unfolding map_leaf
  map_outside g t0 va pa flags t s (leaf, s1) off out (g1, shaped1, grows, inl (e, none_left)) i =
      ap (λ l. (map_leaf mmu hhdm va pa flags (l, s1)).1.entry t i) e
      ∙ (grows.outside t off out).2 i
  map_outside g t0 va pa flags t s (leaf, s1) off out (g1, shaped1, grows, inr (ne, lv, rg, path))
        i =
      let kept = grows.outside t off out in
      let apart : t ≢ leaf = λ e. omega (arith, lv, kept.0, ap g1.level e) in
      ap (λ x. x.1.entry t i) (map_leaf_ne mmu laws hhdm va pa flags leaf s1 ne)
      ∙ ap
          (λ b.
            (if b
                then update (s1.entry leaf) (vmm_index va 0)
                    (mmu.make_pte pa (set_bit 0 flags) false)
                else s1.entry t)
              i)
          (ne→== t leaf apart)
      ∙ kept.2 i

  -- The whole page is mapped with its first address.
  pub leaf_entry_page :
      (va k t : ℕ) (s : Paging)
      → k ≤ 3
      → leaf_entry mmu hhdm va k t s ≡ leaf_entry mmu hhdm (page_of va) k t s
  leaf_entry_page va k t s lo = by_level k t lo
    where
      index_page : (k : ℕ) → k ≤ 3 → vmm_index va k ≡ vmm_index (page_of va) k
      index_page zero h = omega arith
      index_page (suc zero) h = omega arith
      index_page (suc (suc zero)) h = omega arith
      index_page (suc (suc (suc zero))) h = omega arith
      index_page (suc (suc (suc (suc k)))) h = absurd (omega arith)

      by_level :
          (k t : ℕ) → k ≤ 3 → leaf_entry mmu hhdm va k t s ≡ leaf_entry mmu hhdm (page_of va) k t s
      by_level zero t h = ap (λ i. s.entry t i) (index_page 0 h)
      by_level (suc k) t h =
          ap
            (λ i.
              if mmu.pte_is_present (s.entry t i)
              then leaf_entry mmu hhdm va k (child_of mmu hhdm t i s) s
              else 0)
            (index_page (suc k) h)
          ∙ ap
              (λ x.
                if mmu.pte_is_present (s.entry t (vmm_index (page_of va) (suc k))) then x else 0)
              (by_level k (child_of mmu hhdm t (vmm_index (page_of va) (suc k)) s) (omega arith))
