-- ===== src/Vmm/Grow.antt =====
-- `get_or_create_table` of kernel/src/mm/vmm.c keeps the shape of the page tables, and what every
-- address is mapped to.
use pros.Common.{
  ℕ, zero, suc, ◌+◌, ◌*◌, ◌<◌, ◌≡◌, ◌≢◌, ◌⊎◌, inl, inr, refl, sym, ap, ◌∙◌, true, false, List, [],
  ◌∷◌, map, arith, update, update_eq, update_ne, ◌==◌, All, Distinct, Bool-cases, Avoids, ne→==,
  eq→==, ==→eq, ==→ne,
}
use mathlib.Core.Path.{subst}
use pros.Pmm.{pmm_phys_to_virt}
use pros.Arch.{Paging, Mmu, MmuLaws}
use pros.Vmm.{vmm_index, child_of}
use pros.Vmm.Shape.{Shape, IsFree, IsChild, IsShaped, leaf_entry, Grows}

-- A table of some level is no free page.
level_ne : (g : Shape) (t c k : ℕ) → g.level t ≡ k → k < 4 → g.level c ≡ 4 → t ≢ c
level_ne g t c k h small free e = omega (arith, ap g.level e)

-- The tables after the page `c` has become the table below an entry.
abbrev pub add_entry : ℕ → ℕ → ℕ → ℕ → (ℕ → ℕ → ℕ) → ℕ → ℕ → ℕ
add_entry c table index pte entry =
    let cleared = update entry c (λ i. 0) in update cleared table (update (cleared table) index pte)

abbrev pub add_shape : ℕ → ℕ → ℕ → Shape → Shape
add_shape c k region g = record { level = update g.level c k; region = update g.region c region }

module _ (c table index pte : ℕ) (entry : ℕ → ℕ → ℕ) (apart : table ≢ c) where
  at_new : (i : ℕ) → add_entry c table index pte entry c i ≡ 0
  at_new i = rw (ne→== c table (λ e. apart (sym e)), eq→== c c refl) refl

  pub at_slot : add_entry c table index pte entry table index ≡ pte
  at_slot = rw (eq→== table table refl, eq→== index index refl) refl

  at_other :
      (t i : ℕ)
      → t ≢ c
      → (t ≢ table) ⊎ (i ≢ index)
      → add_entry c table index pte entry t i ≡ entry t i
  at_other t i h (inl ne) = rw (ne→== t table ne, ne→== t c h) refl
  at_other t i h (inr ne) = elim (Bool-cases (t == table)) [
    | inl e ↦ rw (e, ne→== i index ne, ne→== table c apart, ==→eq t table e) refl
    | inr e ↦ rw (e, ne→== t c h) refl
  ]

slot_cases : (t table i index : ℕ) → ((t ≡ table) × (i ≡ index)) ⊎ ((t ≢ table) ⊎ (i ≢ index))
slot_cases t table i index = elim (Bool-cases (t == table)) [
  | inl e ↦ elim (Bool-cases (i == index)) [
    | inl e' ↦ inl (==→eq t table e, ==→eq i index e')
    | inr e' ↦ inr (inr (==→ne i index e'))
  ]
  | inr e ↦ inr (inl (==→ne t table e))
]

module _ (mmu : Mmu) (laws : MmuLaws mmu) (hhdm : ℕ) where
  mapped :
      (va k t : ℕ) (s : Paging)
      → mmu.pte_is_present (s.entry t (vmm_index va (suc k))) ≡ true
      → leaf_entry mmu hhdm va (suc k) t s
        ≡ leaf_entry mmu hhdm va k (child_of mmu hhdm t (vmm_index va (suc k)) s) s
  mapped va k t s h = rw h refl

  unmapped :
      (va k t : ℕ) (s : Paging)
      → mmu.pte_is_present (s.entry t (vmm_index va (suc k))) ≡ false
      → leaf_entry mmu hhdm va (suc k) t s ≡ 0
  unmapped va k t s h = rw h refl

  -- A table of zeros maps nothing.
  leaf_entry_zero :
      (va k c : ℕ) (s : Paging) → ((i : ℕ) → s.entry c i ≡ 0) → leaf_entry mmu hhdm va k c s ≡ 0
  leaf_entry_zero va zero c s empty = empty (vmm_index va 0)
  leaf_entry_zero va (suc k) c s empty = rw (empty (vmm_index va (suc k)), laws.present_zero) refl

  All-add_shape :
      (c k region : ℕ) (g : Shape) (fs : List ℕ)
      → Avoids c (map (λ f. f + hhdm) fs)
      → All (IsFree mmu hhdm g) fs
      → All (IsFree mmu hhdm (add_shape c k region g)) fs
  All-add_shape c k region g [] out h = tt
  All-add_shape c k region g (f ∷ fs) out h = (
    (h.0.0, h.0.1, update_ne g.level c k (f + hhdm) out.0 ∙ h.0.2),
    All-add_shape c k region g fs out.1 h.1,
  )

  pub Avoids-map : (f : ℕ) (fs : List ℕ) → Avoids f fs → Avoids (f + hhdm) (map (λ q. q + hhdm) fs)
  Avoids-map f [] h = tt
  Avoids-map f (q ∷ fs) h = ((λ e. h.0 (omega (arith, e))), Avoids-map f fs h.1)

-- The free page `f`, with the pages `fs` behind it, becomes the table below the entry `index` of
-- `table`, a table of level `k + 1` whose entry is not present.
module _ (mmu : Mmu) (laws : MmuLaws mmu) (hhdm : ℕ) (g : Shape) (s : Paging) (f : ℕ) (fs : List ℕ)
    (table index k : ℕ) where
  abbrev pub pte : ℕ
  pte = mmu.make_pte f 7 true

  abbrev pub child : ℕ
  child = f + hhdm

  abbrev pub after : Paging
  after = record s { entry = add_entry child table index pte s.entry; frames = fs }

  abbrev pub shape : Shape
  shape = add_shape child k (g.region table * 512 + index) g

  module _ (shaped : IsShaped mmu hhdm g s) (split : s.frames ≡ f ∷ fs)
      (here : g.level table ≡ suc k) (small : k < 3) (within : index < 512)
      (absent : mmu.pte_is_present (s.entry table index) ≡ false) where
    pub frames-IsFree : All (IsFree mmu hhdm g) (f ∷ fs)
    frames-IsFree = subst (All (IsFree mmu hhdm g)) split shaped.free

    frames-Distinct : Distinct (f ∷ fs)
    frames-Distinct = subst Distinct split shaped.distinct

    pub apart : table ≢ child
    apart = level_ne g table child (suc k) here (omega arith) frames-IsFree.0.2

    pub child_lem : child_of mmu hhdm table index after ≡ child
    unfolding pmm_phys_to_virt
    child_lem =
        rw (at_slot child table index pte s.entry apart, laws.phys-make f 7 true frames-IsFree.0.0)
          (omega (arith, frames-IsFree))

    pub pte_present : mmu.pte_is_present pte ≡ true
    pte_present = laws.present-make f 7 true frames-IsFree.0.0 refl

    other_ne : (t i' : ℕ) → t ≢ child → (t ≢ table) ⊎ (i' ≢ index) → after.entry t i' ≡ s.entry t i'
    other_ne t i' h o = at_other child table index pte s.entry apart t i' h o

    grown_leaves :
        (va j t : ℕ)
        → g.level t ≡ j
        → j < 4
        → leaf_entry mmu hhdm va j t after ≡ leaf_entry mmu hhdm va j t s
    grown_leaves va zero t lt lo =
        other_ne t (vmm_index va 0) (level_ne g t child 0 lt lo frames-IsFree.0.2)
          (inl (λ e. omega (arith, ap g.level e)))
    grown_leaves va (suc j) t lt lo =
        let i = vmm_index va (suc j) in
        let ne = level_ne g t child (suc j) lt lo frames-IsFree.0.2 in
        elim (slot_cases t table i index) [
          | inl (e, e') ↦
              let old : leaf_entry mmu hhdm va (suc j) t s ≡ 0 = unmapped mmu laws hhdm va j t s (
                ap (λ x. mmu.pte_is_present (s.entry x i)) e
                ∙ ap (λ x. mmu.pte_is_present (s.entry table x)) e'
                ∙ absent) in
              let pres : mmu.pte_is_present (after.entry t i) ≡ true =
                rw (e, e', at_slot child table index pte s.entry apart) pte_present in
              let down : child_of mmu hhdm t i after ≡ child = rw (e, e') child_lem in
              let new : leaf_entry mmu hhdm va (suc j) t after ≡ 0 =
                mapped mmu laws hhdm va j t after pres
                ∙ ap (λ c. leaf_entry mmu hhdm va j c after) down
                ∙ leaf_entry_zero mmu laws hhdm va j child after
                    (at_new child table index pte s.entry apart) in
              new ∙ sym old
          | inr o ↦
              let same = other_ne t i ne o in
              elim (Bool-cases (mmu.pte_is_present (s.entry t i))) [
                | inl p ↦
                    let q : mmu.pte_is_present (after.entry t i) ≡ true =
                      ap mmu.pte_is_present same ∙ p in
                    let down : child_of mmu hhdm t i after ≡ child_of mmu hhdm t i s =
                      ap (λ x. pmm_phys_to_virt hhdm (mmu.pte_get_phys x)) same in
                    let below = shaped.children t j i lt (omega arith) (omega arith) p in
                    mapped mmu laws hhdm va j t after q
                    ∙ ap (λ c. leaf_entry mmu hhdm va j c after) down
                    ∙ grown_leaves va j (child_of mmu hhdm t i s) below.1 (omega arith)
                    ∙ sym (mapped mmu laws hhdm va j t s p)
                | inr p ↦
                    unmapped mmu laws hhdm va j t after (ap mmu.pte_is_present same ∙ p)
                    ∙ sym (unmapped mmu laws hhdm va j t s p)
              ]
        ]

    kept-IsChild :
        (t j i c : ℕ)
        → g.level c ≡ j
        → j < 3
        → IsChild mmu hhdm g t i j c
        → g.level t ≡ suc j
        → IsChild mmu hhdm shape t i j c
    kept-IsChild t j i c live lo (ne, lv, rg) lt =
        let ne_c = level_ne g c child j live (omega arith) frames-IsFree.0.2 in
        let ne_t = level_ne g t child (suc j) lt (omega arith) frames-IsFree.0.2 in
        (
          ne,
          update_ne g.level child k c ne_c ∙ lv,
          update_ne g.region child (g.region table * 512 + index) c ne_c
              ∙ rg
              ∙ ap (λ r. r * 512 + i)
                  (sym (update_ne g.region child (g.region table * 512 + index) t ne_t)),
        )

    pub new_child : IsChild mmu hhdm shape table index k child
    new_child = (
      omega (arith, frames-IsFree),
      update_eq g.level child k,
      update_eq g.region child (g.region table * 512 + index)
          ∙ ap (λ r. r * 512 + index)
              (sym (update_ne g.region child (g.region table * 512 + index) table apart)),
    )

    grown_children :
        (t j i : ℕ)
        → shape.level t ≡ suc j
        → j < 3
        → i < 512
        → mmu.pte_is_present (after.entry t i) ≡ true
        → IsChild mmu hhdm shape t i j (child_of mmu hhdm t i after)
    grown_children t j i lt lo li p = elim (Bool-cases (t == child)) [
      | inl e ↦
          let zero_entry : after.entry t i ≡ 0 =
            rw (==→eq t child e) (at_new child table index pte s.entry apart i) in
          let no : mmu.pte_is_present (after.entry t i) ≡ false =
            ap mmu.pte_is_present zero_entry ∙ laws.present_zero in
          cc
      | inr e ↦
          let ne = ==→ne t child e in
          let live : g.level t ≡ suc j = sym (update_ne g.level child k t ne) ∙ lt in
          elim (slot_cases t table i index) [
            | inl (e1, e2) ↦
                let depth : j ≡ k = omega (arith, live, here, ap g.level e1) in
                rw (e1, e2, child_lem, depth) new_child
            | inr o ↦
                let same = other_ne t i ne o in
                let q : mmu.pte_is_present (s.entry t i) ≡ true =
                  ap mmu.pte_is_present (sym same) ∙ p in
                let down : child_of mmu hhdm t i after ≡ child_of mmu hhdm t i s =
                  ap (λ x. pmm_phys_to_virt hhdm (mmu.pte_get_phys x)) same in
                let below = shaped.children t j i live lo li q in
                subst (IsChild mmu hhdm shape t i j) (sym down)
                  (kept-IsChild t j i (child_of mmu hhdm t i s) below.1 lo below live)
          ]
    ]

    pub grown-IsShaped : IsShaped mmu hhdm shape after
    grown-IsShaped = record {
      children = grown_children;
      free =
          All-add_shape mmu laws hhdm child k (g.region table * 512 + index) g fs
            (Avoids-map mmu laws hhdm f fs frames-Distinct.0) frames-IsFree.1;
      distinct = frames-Distinct.1;
    }

    pub grown-Grows : Grows mmu hhdm g shape s after
    grown-Grows = record {
      levels = λ t live.
          let ne : t ≢ child = λ e. live (ap g.level e ∙ frames-IsFree.0.2) in
          (
            update_ne g.level child k t ne,
            update_ne g.region child (g.region table * 512 + index) t ne,
          );
      present = λ t i live p.
          let ne : t ≢ child = λ e. live (ap g.level e ∙ frames-IsFree.0.2) in
          elim (slot_cases t table i index) [
            | inl (e1, e2) ↦
                let no : mmu.pte_is_present (s.entry t i) ≡ false = rw (e1, e2) absent in cc
            | inr o ↦ other_ne t i ne o
          ];
      outside = λ t off out.
          let out' : Avoids t (map (λ q. q + hhdm) (f ∷ fs)) =
            subst (λ xs. Avoids t (map (λ q. q + hhdm) xs)) split out in
          let ne : t ≢ child = λ e. out'.0 (sym e) in
          (
            update_ne g.level child k t ne ∙ off,
            out'.1,
            λ i. other_ne t i ne (inl (λ e. omega (arith, off, here, ap g.level e))),
          );
      registers = (refl, refl);
      leaves = grown_leaves;
    }
