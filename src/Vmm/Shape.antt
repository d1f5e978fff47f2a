-- ===== src/Vmm/Shape.antt =====
-- The shape of the page tables of kernel/src/mm/vmm.c: each table has a level, and the part of the
-- address space that it maps. `next_table` keeps it.
use pros.Common.{
  ℕ, zero, suc, ◌+◌, ◌*◌, ◌/◌, ◌%◌, ◌^◌, ◌<◌, ◌≡◌, ◌≢◌, true, map, arith, u64_mod, if◌then◌else◌,
  All, Distinct, Avoids,
}
use pros.Arch.{Paging, Mmu, IsFrame}
use pros.Vmm.{vmm_index, child_of}

-- The level of a table, from 0 at the leaves to 3 at the root, and 4 for a page that is no table;
-- and the number of the part of the address space that it maps.
pub record Shape : Type 0 where
  pub level : ℕ → ℕ
  pub region : ℕ → ℕ

-- The region of an address at a level: the index bits above those of the level.
abbrev pub region_of : ℕ → ℕ → ℕ
region_of va zero = va / 2 ^ 21 % 2 ^ 27
region_of va (suc zero) = va / 2 ^ 30 % 2 ^ 18
region_of va (suc (suc zero)) = va / 2 ^ 39 % 2 ^ 9
region_of va (suc (suc (suc k))) = 0

pub region_of_step :
    (va k : ℕ) → k < 3 → region_of va (suc k) * 512 + vmm_index va (suc k) ≡ region_of va k
region_of_step va zero h = omega arith
region_of_step va (suc zero) h = omega arith
region_of_step va (suc (suc zero)) h = omega arith
region_of_step va (suc (suc (suc k))) h = absurd (omega arith)

module _ (mmu : Mmu) (hhdm : ℕ) where
  -- A free page: an entry can hold it, its place in the direct map is an address, and it is no table.
  abbrev pub IsFree : Shape → ℕ → Type 0
  IsFree g f = IsFrame f × (f + hhdm < u64_mod) × (g.level (f + hhdm) ≡ 4)

  abbrev pub IsChild : Shape → ℕ → ℕ → ℕ → ℕ → Type 0
  IsChild g table index k c =
      (c ≢ 0) × (g.level c ≡ k) × (g.region c ≡ g.region table * 512 + index)

  pub record IsShaped (g : Shape) (s : Paging) : Type 0 where
    pub children :
        (table k index : ℕ)
        → g.level table ≡ suc k
        → k < 3
        → index < 512
        → mmu.pte_is_present (s.entry table index) ≡ true
        → IsChild g table index k (child_of mmu hhdm table index s)
    pub free : All (IsFree g) s.frames
    pub distinct : Distinct s.frames

  -- The entry that an address has below a table, if the tables down to it are there.
  abbrev pub leaf_entry : ℕ → ℕ → ℕ → Paging → ℕ
  leaf_entry va zero table s = s.entry table (vmm_index va 0)
  leaf_entry va (suc k) table s =
      let rest = leaf_entry va k (child_of mmu hhdm table (vmm_index va (suc k)) s) s in
      if mmu.pte_is_present (s.entry table (vmm_index va (suc k))) then rest else 0

  -- What a step that makes room for tables may do.
  pub record Grows (g g' : Shape) (s s' : Paging) : Type 0 where
    pub levels : (t : ℕ) → g.level t ≢ 4 → (g'.level t ≡ g.level t) × (g'.region t ≡ g.region t)
    pub present :
        (t i : ℕ)
        → g.level t ≢ 4
        → mmu.pte_is_present (s.entry t i) ≡ true
        → s'.entry t i ≡ s.entry t i
    -- A page that is neither free nor a table.
    pub outside :
        (t : ℕ)
        → g.level t ≡ 4
        → Avoids t (map (λ f. f + hhdm) s.frames)
        → (g'.level t ≡ 4)
          × Avoids t (map (λ f. f + hhdm) s'.frames)
          × ((i : ℕ) → s'.entry t i ≡ s.entry t i)
    pub registers : (s'.lower_root ≡ s.lower_root) × (s'.upper_root ≡ s.upper_root)
    pub leaves : (va k t : ℕ) → g.level t ≡ k → k < 4 → leaf_entry va k t s' ≡ leaf_entry va k t s
