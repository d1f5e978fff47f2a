-- ===== src/Pmm/Tests.antt =====
-- The page allocator of kernel/src/mm/pmm.c at concrete inputs.
use pros.Common.{ℕ, ◌≡◌, refl, ◌⊎◌, ◌<◌, some, List, [], ◌∷◌, ◌++◌, arith}
use pros.Pmm.{Pmm, MemmapEntry, pmm_init, pmm_claim, pmm_alloc, pmm_free, pmm_get_free_page_count}
use pros.Pmm.FreeList.{pages, Holds}
use pros.Pmm.Search.{NoRun}
use pros.Pmm.Alloc.{pmm_alloc_lem}
use pros.Pmm.Free.{pmm_free_lem}
use pros.Pmm.Reuse.{pmm_alloc-pmm_free}

abbrev hhdm : ℕ
hhdm = 0xffff_8000_0000_0000

abbrev no_pages : Pmm
no_pages = record { free_list_head = 0; next = λ p. 0; max_phys_addr = 0 }

no_pages-Holds : Holds hhdm no_pages []
no_pages-Holds = record { chain = refl; in_map = tt; distinct = tt }

abbrev three_pages : Pmm
three_pages = pmm_free hhdm 0x1000 3 no_pages

three_pages-Holds : Holds hhdm three_pages (pages hhdm 0x1000 3)
unfolding pros.Pmm.FreeList.down
three_pages-Holds =
    (pmm_free_lem hhdm 3 0x1000 no_pages [] (omega arith) (omega arith) tt no_pages-Holds).0

abbrev memmap : List MemmapEntry
memmap =
    record { base = 0x800; size = 0x3000; kind = 0 }
    ∷ record { base = 0x10000; size = 0x1000; kind = 1 }
    ∷ []

-- Two whole pages lie in the usable entry.
claim_two : (pmm_claim hhdm memmap 0 no_pages).1 ≡ 2
unfolding pmm_claim
claim_two = refl

init_top : pmm_init (some memmap) no_pages ≡ some (record no_pages { max_phys_addr = 0x11000 })
unfolding pmm_init
init_top = refl

pmm_free_lem_example :
    Holds hhdm (pmm_free hhdm 0x1000 3 no_pages) (pages hhdm 0x1000 3 ++ [])
    × (pmm_free hhdm 0 3 no_pages ≡ no_pages)
pmm_free_lem_example =
    pmm_free_lem hhdm 3 0x1000 no_pages [] (omega arith) (omega arith) tt no_pages-Holds

pmm_alloc_lem_example :
    ((pmm_alloc hhdm 4 2 three_pages ≡ some (0, three_pages)) × NoRun 1 (pages hhdm 0x1000 3))
    ⊎ ((phys : ℕ) × (pre : List ℕ) × (post : List ℕ) × (s' : Pmm) × (pmm_alloc hhdm 4 2 three_pages
          ≡ some (phys, s'))
        × (0 < phys)
        × (pages hhdm 0x1000 3 ≡ pre ++ (pages hhdm phys 2 ++ post))
        × Holds hhdm s' (pre ++ post))
unfolding pros.Pmm.FreeList.down
pmm_alloc_lem_example =
    pmm_alloc_lem hhdm 1 4 three_pages (pages hhdm 0x1000 3) (omega arith) (omega arith)
      three_pages-Holds (omega arith)

pmm_alloc-pmm_free_example :
    (s' : Pmm) × (pmm_alloc hhdm 1 2 (pmm_free hhdm 0x8000 2 three_pages) ≡ some (0x8000, s'))
    × Holds hhdm s' (pages hhdm 0x1000 3)
unfolding pros.Pmm.FreeList.down
pmm_alloc-pmm_free_example =
    pmm_alloc-pmm_free hhdm 0 1 0x8000 three_pages (pages hhdm 0x1000 3) (omega arith) (omega arith)
      (omega arith) (omega arith) three_pages-Holds
