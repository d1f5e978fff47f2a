-- ===== src/Vmm/Leaf.antt =====
-- The entry of a page, as kernel/src/mm/vmm.c reads it by a walk and writes it in the table of level 0.
use pros.Common.{
  ℕ, zero, suc, ◌+◌, ◌*◌, ◌/◌, ◌%◌, ◌^◌, ◌≤◌, ◌≡◌, ◌≢◌, ◌⊎◌, inl, inr, refl, sym, ap, ◌∙◌, true,
  false, arith, ◌==◌, Bool-cases, ne→==, eq→==, ==→eq, ==→ne,
}
use mathlib.Core.Path.{subst}
use pros.Pmm.{pmm_phys_to_virt}
use pros.Arch.{Paging, Mmu}
use pros.Vmm.{vmm_index, next_table, child_of, walk_loop, set_entry}
use pros.Vmm.Shape.{Shape, IsChild, IsShaped, leaf_entry, region_of, region_of_step}
use pros.Vmm.Walk.{Reaches}

-- The number of the page of an address, of the 48 bits that the tables see.
abbrev pub page_number : ℕ → ℕ
page_number va = va / 2 ^ 12 % 2 ^ 36

module _ (mmu : Mmu) (hhdm : ℕ) where
  -- What the walk that only looks gives, from a table of level `k`.
  abbrev pub Looked : Shape → Paging → ℕ → ℕ → ℕ → ℕ × Paging → Type 0
  Looked g s va k t (leaf, s') =
      (s' ≡ s)
      × (((leaf ≡ 0) × (leaf_entry mmu hhdm va k t s ≡ 0))
          ⊎ ((leaf ≢ 0)
              × (g.level leaf ≡ 0)
              × (g.region leaf ≡ region_of va 0)
              × Reaches mmu hhdm va k t leaf s
              × (leaf_entry mmu hhdm va k t s ≡ s.entry leaf (vmm_index va 0))))

  look_here :
      (va k t : ℕ) (s : Paging)
      → mmu.pte_is_present (s.entry t (vmm_index va (suc k))) ≡ true
      → child_of mmu hhdm t (vmm_index va (suc k)) s ≢ 0
      → walk_loop mmu hhdm false va (suc k) t s
        ≡ walk_loop mmu hhdm false va k (child_of mmu hhdm t (vmm_index va (suc k)) s) s
  unfolding walk_loop next_table
  look_here va k t s p ne = rw (p, ne→== (child_of mmu hhdm t (vmm_index va (suc k)) s) 0 ne) refl

  look_away :
      (va k t : ℕ) (s : Paging)
      → mmu.pte_is_present (s.entry t (vmm_index va (suc k))) ≡ false
      → walk_loop mmu hhdm false va (suc k) t s ≡ (0, s)
  unfolding walk_loop next_table
  look_away va k t s p = rw p refl

  step-Looked :
      (g : Shape) (s : Paging) (va k t : ℕ) (r : ℕ × Paging)
      → mmu.pte_is_present (s.entry t (vmm_index va (suc k))) ≡ true
      → Looked g s va k (child_of mmu hhdm t (vmm_index va (suc k)) s) r
      → Looked g s va (suc k) t r
  step-Looked g s va k t (leaf, s') p (same, inl (e, e')) = (same, inl (e, rw p e'))
  step-Looked g s va k t (leaf, s') p (same, inr (ne, lv, rg, path, e)) =
      (same, inr (ne, lv, rg, (p, path), rw p e))

  pub walk_loop-Looked :
      (va k t : ℕ) (g : Shape) (s : Paging)
      → k ≤ 3
      → t ≢ 0
      → IsShaped mmu hhdm g s
      → g.level t ≡ k
      → g.region t ≡ region_of va k
      → Looked g s va k t (walk_loop mmu hhdm false va k t s)
  unfolding walk_loop
  walk_loop-Looked va zero t g s lo ne shaped lt rg = (refl, inr (ne, lt, rg, refl, refl))
  walk_loop-Looked va (suc k) t g s lo ne shaped lt rg =
      let i = vmm_index va (suc k) in
      elim (Bool-cases (mmu.pte_is_present (s.entry t i))) [
        | inl p ↦
            let c = child_of mmu hhdm t i s in
            let below = shaped.children t k i lt (omega arith) (omega arith) p in
            let region : g.region c ≡ region_of va k =
              below.2 ∙ ap (λ r. r * 512 + i) rg ∙ region_of_step va k (omega arith) in
            let rest = walk_loop-Looked va k c g s (omega arith) below.0 shaped below.1 region in
            subst (Looked g s va (suc k) t) (sym (look_here va k t s p below.0))
              (step-Looked g s va k t (walk_loop mmu hhdm false va k c s) p rest)
        | inr p ↦
            subst (Looked g s va (suc k) t) (sym (look_away va k t s p))
              (refl, inl (refl, rw p refl))
      ]

  -- An entry of a table of level 0 is written.
  module _ (g : Shape) (s : Paging) (va leaf pte : ℕ) (bottom : g.level leaf ≡ 0) where
    abbrev pub written : Paging
    written = set_entry mmu hhdm leaf (vmm_index va 0) pte s

    written_slot : written.entry leaf (vmm_index va 0) ≡ pte
    written_slot = rw (eq→== leaf leaf refl, eq→== (vmm_index va 0) (vmm_index va 0) refl) refl

    written_table : (t i : ℕ) → t ≢ leaf → written.entry t i ≡ s.entry t i
    written_table t i ne = rw (ne→== t leaf ne) refl

    written_index : (t i : ℕ) → i ≢ vmm_index va 0 → written.entry t i ≡ s.entry t i
    written_index t i ne = elim (Bool-cases (t == leaf)) [
      | inl e ↦ rw (e, ne→== i (vmm_index va 0) ne, ==→eq t leaf e) refl
      | inr e ↦ rw e refl
    ]

    above_leaf : (t k : ℕ) → g.level t ≡ suc k → t ≢ leaf
    above_leaf t k lt e = omega (arith, lt, bottom, ap g.level e)

    written_child :
        (t k i : ℕ) → g.level t ≡ suc k → child_of mmu hhdm t i written ≡ child_of mmu hhdm t i s
    written_child t k i lt =
        ap (λ x. pmm_phys_to_virt hhdm (mmu.pte_get_phys x)) (written_table t i (above_leaf t k lt))

    pub written-IsShaped : IsShaped mmu hhdm g s → IsShaped mmu hhdm g written
    written-IsShaped shaped = record {
      children = λ t k i lt lo li p.
          let same = written_table t i (above_leaf t k lt) in
          subst (IsChild mmu hhdm g t i k) (sym (written_child t k i lt))
            (shaped.children t k i lt lo li (ap mmu.pte_is_present (sym same) ∙ p));
      free = shaped.free;
      distinct = shaped.distinct;
    }

    -- The address is mapped by the new entry.
    pub written_here :
        (k t : ℕ)
        → k ≤ 3
        → IsShaped mmu hhdm g s
        → g.level t ≡ k
        → Reaches mmu hhdm va k t leaf s
        → leaf_entry mmu hhdm va k t written ≡ pte
    written_here zero t lo shaped lt path =
        ap (λ x. written.entry x (vmm_index va 0)) path ∙ written_slot
    written_here (suc k) t lo shaped lt (p, path) =
        let i = vmm_index va (suc k) in
        let same = written_table t i (above_leaf t k lt) in
        let q : mmu.pte_is_present (written.entry t i) ≡ true = ap mmu.pte_is_present same ∙ p in
        let below = shaped.children t k i lt (omega arith) (omega arith) p in
        rw (q, written_child t k i lt)
          (written_here k (child_of mmu hhdm t i s) (omega arith) shaped below.1 path)

    -- An address of another page is mapped as it was.
    pub written_there :
        (vb k t : ℕ)
        → k ≤ 3
        → IsShaped mmu hhdm g s
        → g.region leaf ≡ region_of va 0
        → page_number vb ≢ page_number va
        → g.level t ≡ k
        → g.region t ≡ region_of vb k
        → leaf_entry mmu hhdm vb k t written ≡ leaf_entry mmu hhdm vb k t s
    written_there vb zero t lo shaped here other lt rt = elim (Bool-cases (t == leaf)) [
      | inl e ↦
          let same = ap g.region (==→eq t leaf e) in
          written_index t (vmm_index vb 0) (λ e'. other (omega (arith, e', same, here, rt)))
      | inr e ↦ written_table t (vmm_index vb 0) (==→ne t leaf e)
    ]
    written_there vb (suc k) t lo shaped here other lt rt =
        let i = vmm_index vb (suc k) in
        let same = written_table t i (above_leaf t k lt) in
        elim (Bool-cases (mmu.pte_is_present (s.entry t i))) [
          | inl p ↦
              let q : mmu.pte_is_present (written.entry t i) ≡ true =
                ap mmu.pte_is_present same ∙ p in
              let c = child_of mmu hhdm t i s in
              let below = shaped.children t k i lt (omega arith) (omega arith) p in
              let region : g.region c ≡ region_of vb k =
                below.2 ∙ ap (λ r. r * 512 + i) rt ∙ region_of_step vb k (omega arith) in
              let rest = written_there vb k c (omega arith) shaped here other below.1 region in
              rw (p, q, written_child t k i lt) rest
          | inr p ↦
              let q : mmu.pte_is_present (written.entry t i) ≡ false =
                ap mmu.pte_is_present same ∙ p in
              rw (p, q) refl
        ]
