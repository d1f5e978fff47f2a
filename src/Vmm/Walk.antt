-- ===== src/Vmm/Walk.antt =====
-- `walk_to_leaf_slot` of kernel/src/mm/vmm.c: the loop that creates the tables on the way, and the
-- one that only looks.
use pros.Common.{
  ℕ, zero, suc, ◌+◌, ◌*◌, ◌≤◌, ◌<◌, ◌≡◌, ◌≢◌, ◌⊎◌, inl, inr, refl, sym, ap, ◌∙◌, true, false, List,
  [], ◌∷◌, arith, add64, u64_mod, ◌==◌, if◌then◌else◌, Bool-cases, ne→==,
}
use mathlib.Core.Path.{subst}
use pros.Pmm.{pmm_phys_to_virt}
use pros.Arch.{Paging, take_frame, clear_page, Mmu, MmuLaws, IsFrame}
use pros.Vmm.{vmm_index, next_table, get_or_create_table, install, child_of, walk_loop}
use pros.Vmm.Shape.{Shape, IsChild, IsShaped, Grows, region_of, region_of_step}
use pros.Vmm.Grow.{
  after, shape, grown-IsShaped, grown-Grows, new_child, child_lem, pte_present, at_slot,
  frames-IsFree, apart,
}

-- From a table of level `k` the entries for an address are present and lead to the table `leaf`.
abbrev pub Reaches : Mmu → ℕ → ℕ → ℕ → ℕ → ℕ → Paging → Type 0
Reaches mmu hhdm va zero t leaf s = t ≡ leaf
Reaches mmu hhdm va (suc k) t leaf s =
    (mmu.pte_is_present (s.entry t (vmm_index va (suc k))) ≡ true)
    × Reaches mmu hhdm va k (child_of mmu hhdm t (vmm_index va (suc k)) s) leaf s

pub List-cases {ℓ} :
    {A : Type ℓ} (xs : List A) → (xs ≡ []) ⊎ ((x : A) × (ys : List A) × (xs ≡ x ∷ ys))
List-cases [] = inl refl
List-cases (x ∷ xs) = inr (x, xs, refl)

module _ (mmu : Mmu) (laws : MmuLaws mmu) (hhdm : ℕ) where
  same-Grows : (g : Shape) (s : Paging) → Grows mmu hhdm g g s s
  same-Grows g s = record {
    levels = λ t live. (refl, refl);
    present = λ t i live p. refl;
    outside = λ t off out. (off, out, λ i. refl);
    registers = (refl, refl);
    leaves = λ va k t live lo. refl;
  }

  Grows-trans :
      (g1 g2 g3 : Shape) (s1 s2 s3 : Paging)
      → Grows mmu hhdm g1 g2 s1 s2
      → Grows mmu hhdm g2 g3 s2 s3
      → Grows mmu hhdm g1 g3 s1 s3
  Grows-trans g1 g2 g3 s1 s2 s3 h k = record {
    levels = λ t live.
        let here = h.levels t live in
        let there = k.levels t (λ e. live (sym here.0 ∙ e)) in (there.0 ∙ here.0, there.1 ∙ here.1);
    present = λ t i live p.
        let here = h.levels t live in
        let same = h.present t i live p in
        k.present t i (λ e. live (sym here.0 ∙ e)) (ap mmu.pte_is_present same ∙ p) ∙ same;
    outside = λ t off out.
        let one = h.outside t off out in
        let two = k.outside t one.0 one.1 in (two.0, two.1, λ i. two.2 i ∙ one.2 i);
    registers = (k.registers.0 ∙ h.registers.0, k.registers.1 ∙ h.registers.1);
    leaves = λ va j t lt lo.
        let here = h.levels t (λ e. omega (arith, e)) in
        k.leaves va j t (here.0 ∙ lt) lo ∙ h.leaves va j t lt lo;
  }

  -- What a call that makes room for the table of level `k` below an entry gives.
  abbrev MadeTable : Shape → Paging → ℕ → ℕ → ℕ → ℕ × Paging → Type 0
  MadeTable g s table index k (c, s') =
      (g' : Shape) × IsShaped mmu hhdm g' s'
      × Grows mmu hhdm g g' s s'
      × (mmu.pte_is_present (s'.entry table index) ≡ true)
      × (c ≡ child_of mmu hhdm table index s')
      × IsChild mmu hhdm g' table index k c

  install_frame :
      (f : ℕ) (fs : List ℕ) (table index : ℕ) (s : Paging)
      → IsFrame f
      → f + hhdm < u64_mod
      → install mmu hhdm table index (take_frame (f ∷ fs) s) ≡ (
        f + hhdm,
        after mmu laws hhdm record { level = λ t. 0; region = λ t. 0 } s f fs table index 0,
      )
  unfolding install take_frame clear_page pmm_phys_to_virt
  install_frame f fs table index s h below =
      let e : add64 f hhdm ≡ f + hhdm = omega arith in rw (ne→== f 0 (omega (arith, h)), e) refl

  module _ (g : Shape) (s : Paging) (table index k : ℕ) (shaped : IsShaped mmu hhdm g s)
      (here : g.level table ≡ suc k) (small : k < 3) (within : index < 512) where
    made_old :
        mmu.pte_is_present (s.entry table index) ≡ true
        → MadeTable g s table index k (get_or_create_table mmu hhdm table index s)
    unfolding get_or_create_table
    made_old p =
        rw p (g, shaped, same-Grows g s, p, refl, shaped.children table k index here small within p)

    made_new :
        (f : ℕ) (fs : List ℕ)
        → mmu.pte_is_present (s.entry table index) ≡ false
        → s.frames ≡ f ∷ fs
        → MadeTable g s table index k (get_or_create_table mmu hhdm table index s)
    unfolding get_or_create_table
    made_new f fs absent split =
        let page =
          frames-IsFree mmu laws hhdm g s f fs table index k shaped split here small within
            absent in
        let e = install_frame f fs table index s page.0.0 page.0.1 in
        let low =
          apart mmu laws hhdm g s f fs table index k shaped split here small within absent in
        let there : mmu.pte_is_present
              ((after mmu laws hhdm g s f fs table index k).entry table index)
            ≡ true =
          ap mmu.pte_is_present (at_slot (f + hhdm) table index (mmu.make_pte f 7 true) s.entry low)
          ∙ pte_present mmu laws hhdm g s f fs table index k shaped split here small within
              absent in
        let made : MadeTable g s table index k
            (f + hhdm, after mmu laws hhdm g s f fs table index k) =
          (
            shape mmu laws hhdm g s f fs table index k,
            grown-IsShaped mmu laws hhdm g s f fs table index k shaped split here small within
                absent,
            grown-Grows mmu laws hhdm g s f fs table index k shaped split here small within absent,
            there,
            sym (
                child_lem mmu laws hhdm g s f fs table index k shaped split here small within
                  absent),
            new_child mmu laws hhdm g s f fs table index k shaped split here small within absent,
          ) in
        let called : get_or_create_table mmu hhdm table index s
            ≡ install mmu hhdm table index (take_frame s.frames s) =
          rw absent refl in
        let framed = ap (λ xs. install mmu hhdm table index (take_frame xs s)) split in
        subst (MadeTable g s table index k) (sym (called ∙ framed ∙ e)) made

    made_none :
        mmu.pte_is_present (s.entry table index) ≡ false
        → s.frames ≡ []
        → get_or_create_table mmu hhdm table index s ≡ (0, s)
    unfolding get_or_create_table install take_frame
    made_none absent out = rw (absent, out) refl

    get_or_create_table_lem :
        ((get_or_create_table mmu hhdm table index s ≡ (0, s)) × (s.frames ≡ []))
        ⊎ MadeTable g s table index k (get_or_create_table mmu hhdm table index s)
    get_or_create_table_lem = elim (Bool-cases (mmu.pte_is_present (s.entry table index))) [
      | inl p ↦ inr (made_old p)
      | inr p ↦ elim (List-cases s.frames) [
        | inl e ↦ inl (made_none p e, e)
        | inr (f, fs, e) ↦ inr (made_new f fs p e)
      ]
    ]

  -- What the walk that creates tables gives, from a table of level `k`.
  abbrev pub Walked : Shape → Paging → ℕ → ℕ → ℕ → ℕ × Paging → Type 0
  Walked g s va k t (leaf, s') =
      (g' : Shape) × IsShaped mmu hhdm g' s'
      × Grows mmu hhdm g g' s s'
      × (((leaf ≡ 0) × (s'.frames ≡ []))
          ⊎ ((leaf ≢ 0)
              × (g'.level leaf ≡ 0)
              × (g'.region leaf ≡ region_of va 0)
              × Reaches mmu hhdm va k t leaf s'))

  step-Walked :
      (g : Shape) (s : Paging) (va k t c : ℕ) (s1 : Paging) (g1 : Shape) (r : ℕ × Paging)
      → g.level t ≡ suc k
      → k < 3
      → Grows mmu hhdm g g1 s s1
      → mmu.pte_is_present (s1.entry t (vmm_index va (suc k))) ≡ true
      → c ≡ child_of mmu hhdm t (vmm_index va (suc k)) s1
      → Walked g1 s1 va k c r
      → Walked g s va (suc k) t r
  step-Walked g s va k t c s1 g1 (leaf, s') lt lo grows p down (g2, shaped2, grows2, inl out) =
      (g2, shaped2, Grows-trans g g1 g2 s s1 s' grows grows2, inl out)
  step-Walked g s va k t c s1 g1 (leaf, s') lt lo grows p down
        (g2, shaped2, grows2, inr (ne, lv, rg, path)) =
      let live : g1.level t ≢ 4 =
        λ e. omega (arith, e, lt, (grows.levels t (λ e'. omega (arith, e', lt))).0) in
      let same = grows2.present t (vmm_index va (suc k)) live p in
      let below : c ≡ child_of mmu hhdm t (vmm_index va (suc k)) s' =
        down ∙ ap (λ x. pmm_phys_to_virt hhdm (mmu.pte_get_phys x)) (sym same) in
      (
        g2,
        shaped2,
        Grows-trans g g1 g2 s s1 s' grows grows2,
        inr (
          ne,
          lv,
          rg,
          (ap mmu.pte_is_present same ∙ p, subst (λ x. Reaches mmu hhdm va k x leaf s') below path),
        ),
      )

  walk_tail : ℕ → ℕ → ℕ × Paging → ℕ × Paging
  walk_tail va k (t, s) = if t == 0 then (0, s) else walk_loop mmu hhdm true va k t s

  walk_tail_ne :
      (va k : ℕ) (r : ℕ × Paging)
      → r.0 ≢ 0
      → walk_tail va k r ≡ walk_loop mmu hhdm true va k r.0 r.1
  unfolding walk_tail
  walk_tail_ne va k (t, s) ne = rw (ne→== t 0 ne) refl

  walk_out :
      (va k t : ℕ) (g : Shape) (s : Paging)
      → IsShaped mmu hhdm g s
      → s.frames ≡ []
      → Walked g s va (suc k) t (walk_tail va k (0, s))
  unfolding walk_tail
  walk_out va k t g s shaped out = (g, shaped, same-Grows g s, inl (refl, out))

  walk_loop-suc :
      (va k t : ℕ) (s : Paging)
      → walk_loop mmu hhdm true va (suc k) t s
        ≡ walk_tail va k (get_or_create_table mmu hhdm t (vmm_index va (suc k)) s)
  unfolding walk_loop walk_tail next_table
  walk_loop-suc va k t s = refl

  pub walk_loop-Walked :
      (va k t : ℕ) (g : Shape) (s : Paging)
      → k ≤ 3
      → t ≢ 0
      → IsShaped mmu hhdm g s
      → g.level t ≡ k
      → g.region t ≡ region_of va k
      → Walked g s va k t (walk_loop mmu hhdm true va k t s)
  unfolding walk_loop
  walk_loop-Walked va zero t g s lo ne shaped lt rg =
      (g, shaped, same-Grows g s, inr (ne, lt, rg, refl))
  walk_loop-Walked va (suc k) t g s lo ne shaped lt rg =
      let i = vmm_index va (suc k) in
      let made = get_or_create_table mmu hhdm t i s in
      elim (get_or_create_table_lem g s t i k shaped lt (omega arith) (omega arith)) [
        | inl (e, out) ↦
            subst (Walked g s va (suc k) t) (sym (walk_loop-suc va k t s ∙ ap (walk_tail va k) e))
              (walk_out va k t g s shaped out)
        | inr (g1, shaped1, grows, p, down, (ne1, lv1, rg1)) ↦
            let step : walk_tail va k made ≡ walk_loop mmu hhdm true va k made.0 made.1 =
              walk_tail_ne va k made ne1 in
            let parent = (grows.levels t (λ e. omega (arith, e, lt))).1 in
            let region : g1.region made.0 ≡ region_of va k =
              rg1 ∙ ap (λ r. r * 512 + i) (parent ∙ rg) ∙ region_of_step va k (omega arith) in
            let rest =
              walk_loop-Walked va k made.0 g1 made.1 (omega arith) ne1 shaped1 lv1 region in
            subst (Walked g s va (suc k) t) (sym (walk_loop-suc va k t s ∙ step)) (
              step-Walked g s va k t made.0 made.1 g1 (walk_loop mmu hhdm true va k made.0 made.1)
                lt (omega arith) grows p down rest)
      ]
