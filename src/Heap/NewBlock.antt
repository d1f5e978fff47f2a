-- ===== src/Heap/NewBlock.antt =====
-- The new block of `kmalloc` (kernel/src/mm/heap.c), in pages that `pmm_alloc` gives.
use mathlib.Core.Path.{subst}
use pros.Common.{
  ℕ, suc, ◌+◌, ◌-◌, ◌*◌, ◌/◌, ◌%◌, ◌≤◌, ◌<◌, ◌≡◌, ◌≢◌, ◌⊎◌, refl, ap, sym, ◌∙◌, inl, inr, true,
  false, some, List, [], ◌∷◌, ◌++◌, arith, update, Distinct, Distinct-split, Apart, Apart-sym, has,
  Avoids-has, add64, sub64, mul64, u64_mod, ltb, leb, ◌==◌, length, length-append, Bool-cases,
  ltb→ge, ltb→lt, leb→le, leb→gt, ==→eq, ne→==, eq→==,
}
use pros.Heap.Blocks.{Clear, has-append}
use pros.Pmm.{Pmm, page_size, pmm_alloc, pmm_phys_to_virt}
use pros.Pmm.FreeList.{down, pages, Holds}
use pros.Pmm.Search.{NoRun}
use pros.Pmm.Alloc.{pmm_alloc_lem}
use pros.Heap.{Heap, heap_header_size, place_block, new_block}
use pros.Heap.Fresh.{down-Clear, down-has}
use pros.Heap.Invariant.{IsHeap}
use pros.Heap.Push

Apart-has : (xs ys : List ℕ) (x : ℕ) → Apart xs ys → has x xs ≡ true → has x ys ≡ false
Apart-has [] ys x out i = absurd (ground (arith, i))
Apart-has (z ∷ xs) ys x out i = elim (Bool-cases (x == z)) [
  | inl e ↦ rw (==→eq x z e) (Avoids-has z ys out.0)
  | inr e ↦ Apart-has xs ys x out.1 (ground (arith, i, e))
]

-- What `pmm_alloc` takes out of the free list is in it no more.
Distinct-gone :
    (pre mid post : List ℕ) (x : ℕ)
    → Distinct (pre ++ (mid ++ post))
    → has x (pre ++ post) ≡ true
    → (has x mid ≡ false) × (has x (pre ++ (mid ++ post)) ≡ true)
Distinct-gone pre mid post x d i =
    let (dp, dr, apart) = Distinct-split pre (mid ++ post) d in
    let (dm, dq, apart') = Distinct-split mid post dr in
    let all = has-append x pre (mid ++ post) in
    let rest = has-append x mid post in
    let old = has-append x pre post in
    elim (Bool-cases (has x pre)) [
      | inl e ↦
          let out = Apart-has pre (mid ++ post) x apart e in
          (ground (arith, out, rest), ground (arith, all, e))
      | inr e ↦
          let late : has x post ≡ true = ground (arith, old, e, i) in
          (Apart-has post mid x (Apart-sym mid post apart') late, ground (arith, all, rest, late))
    ]

-- A run of `suc k` pages down from `top`, taken out of the free pages of a heap as a block.
module _ (hhdm : ℕ) (h : Heap) (bs pre post : List ℕ) (k top : ℕ) (s' : Pmm)
    (heap : IsHeap hhdm h bs (pre ++ (down top (suc k) ++ post)))
    (left : Holds hhdm s' (pre ++ post)) (low : k * page_size < top) where
  run_free :
      (x : ℕ) → has x (down top (suc k)) ≡ true → has x (pre ++ (down top (suc k) ++ post)) ≡ true
  run_free x i =
      ground (
        arith,
        i,
        has-append x pre (down top (suc k) ++ post),
        has-append x (down top (suc k)) post,
      )

  top_free : has top (down top (suc k)) ≡ true
  unfolding down
  top_free = let same = eq→== top top refl in rw same refl

  run-Clear : Clear (top - k * page_size) (top + page_size) h.block bs
  run-Clear = down-Clear h.block bs k top (omega (arith, low)) (λ x i. heap.clear x (run_free x i))

  pub placed_top : (top % page_size ≡ 0) × (top + page_size < u64_mod)
  placed_top = heap.placed top (run_free top top_free)

  abbrev size_of : ℕ
  size_of = suc k * page_size - heap_header_size

  abbrev base : ℕ
  base = top - k * page_size

  block-Clear : Clear base (base + heap_header_size + size_of) h.block bs
  block-Clear = subst (λ e. Clear base e h.block bs) (omega (arith, low)) run-Clear

  block_bounded : (0 < base) × (base + heap_header_size + size_of < u64_mod)
  block_bounded = (omega (arith, low), omega (arith, low, placed_top))

  block_aligned : (base % 16 ≡ 0) × (size_of % 16 ≡ 0)
  block_aligned = (omega (arith, low, placed_top), omega arith)

  -- The heap with the block in front.
  pub grown : Heap
  grown = record h {
    heap_block_list = base;
    block =
        Push.pushed h.block h.heap_block_list bs base size_of heap.blocks block-Clear block_bounded
          block_aligned;
    pmm = s';
  }

  -- A page that stays free is not in the run, so it is below or above it.
  outside :
      (x : ℕ)
      → has x (pre ++ post) ≡ true
      → (x + page_size ≤ base) ⊎ (base + heap_header_size + size_of ≤ x)
  outside x i =
      let (out, old) = Distinct-gone pre (down top (suc k)) post x heap.pages.distinct i in
      let at = heap.placed x old in
      elim (Bool-cases (ltb x base)) [
        | inl e ↦ inl (omega (arith, at.0, placed_top.0, low, ltb→lt x base e))
        | inr e ↦ elim (Bool-cases (leb x top)) [
          | inl e' ↦
              let inside =
                down-has k top x (omega (arith, low)) placed_top.0 at.0 (ltb→ge x base e)
                  (leb→le x top e') in
              absurd (let f = sym out ∙ inside in ground (arith, f))
          | inr e' ↦ inr (omega (arith, at.0, placed_top.0, low, leb→gt x top e'))
        ]
      ]

  pub grown-IsHeap : IsHeap hhdm grown (base ∷ bs) (pre ++ post)
  unfolding grown
  grown-IsHeap = record {
    blocks =
        Push.pushed-IsBlocks h.block h.heap_block_list bs base size_of heap.blocks block-Clear
          block_bounded block_aligned;
    pages = left;
    placed =
        λ x i. heap.placed x (Distinct-gone pre (down top (suc k)) post x heap.pages.distinct i).1;
    clear = λ x i.
        Push.pushed-Clear h.block h.heap_block_list bs base size_of heap.blocks block-Clear
          block_bounded block_aligned x (x + page_size)
          (heap.clear x (Distinct-gone pre (down top (suc k)) post x heap.pages.distinct i).1)
          (outside x i);
  }

  pub grown_header : grown.block base ≡ Push.header size_of h.heap_block_list
  unfolding grown
  grown_header =
      Push.pushed_here h.block h.heap_block_list bs base size_of heap.blocks block-Clear
        block_bounded block_aligned

  pub grown_other : (c : ℕ) → has c bs ≡ true → (c ≢ base) × (grown.block c ≡ h.block c)
  unfolding grown
  grown_other c i =
      let ne =
        Push.old_ne h.block h.heap_block_list bs base size_of heap.blocks block-Clear block_bounded
          block_aligned c i in
      (
        ne,
        Push.pushed_other h.block h.heap_block_list bs base size_of heap.blocks block-Clear
            block_bounded block_aligned c ne,
      )

-- A heap with a new free block of at least `size` bytes in front; all else is as before.
pub record Extended (hhdm : ℕ) (h : Heap) (bs : List ℕ) (size a : ℕ) (h' : Heap) (frees' : List ℕ)
    : Type 0 where
  pub is_heap : IsHeap hhdm h' (a ∷ bs) frees'
  pub free : (h'.block a).is_free ≡ true
  pub fits : size ≤ (h'.block a).size
  pub others : (c : ℕ) → has c bs ≡ true → (c ≢ a) × (h'.block c ≡ h.block c)

new_block-phys :
    (hhdm fuel size phys k : ℕ) (h : Heap) (s' : Pmm)
    → add64 (add64 heap_header_size size) (page_size - 1) / page_size ≡ suc k
    → pmm_alloc hhdm fuel (suc k) h.pmm ≡ some (phys, s')
    → 0 < phys
    → new_block hhdm fuel size h
      ≡ some (
        pmm_phys_to_virt hhdm phys,
        record h {
          heap_block_list = pmm_phys_to_virt hhdm phys;
          block =
              update h.block
                (pmm_phys_to_virt hhdm phys)
                (Push.header (sub64 (mul64 (suc k) page_size) heap_header_size) h.heap_block_list);
          pmm = s';
        },
      )
unfolding new_block
new_block-phys hhdm fuel size phys k h s' count call set =
    let answer = ap (λ n. place_block hhdm n (pmm_alloc hhdm fuel n h.pmm) h) count in
    answer
    ∙ ap (λ o. place_block hhdm (suc k) o h) call
    ∙ rw (place_block, ne→== phys 0 (omega arith)) refl

new_block-none :
    (hhdm fuel size k : ℕ) (h : Heap)
    → add64 (add64 heap_header_size size) (page_size - 1) / page_size ≡ suc k
    → pmm_alloc hhdm fuel (suc k) h.pmm ≡ some (0, h.pmm)
    → new_block hhdm fuel size h ≡ some (0, h)
unfolding new_block
new_block-none hhdm fuel size k h count call =
    let answer = ap (λ n. place_block hhdm n (pmm_alloc hhdm fuel n h.pmm) h) count in
    answer ∙ ap (λ o. place_block hhdm (suc k) o h) call

new_block-grown :
    (hhdm fuel size phys k : ℕ) (h : Heap) (bs pre post : List ℕ) (s' : Pmm)
    (heap : IsHeap hhdm h bs (pre ++ (down (phys + k * page_size + hhdm) (suc k) ++ post)))
    (left : Holds hhdm s' (pre ++ post)) (low : k * page_size < phys + k * page_size + hhdm)
    → add64 (add64 heap_header_size size) (page_size - 1) / page_size ≡ suc k
    → pmm_alloc hhdm fuel (suc k) h.pmm ≡ some (phys, s')
    → 0 < phys
    → new_block hhdm fuel size h
      ≡ some (
        phys + k * page_size + hhdm - k * page_size,
        grown hhdm h bs pre post k (phys + k * page_size + hhdm) s' heap left low,
      )
unfolding grown Push.pushed pmm_phys_to_virt
new_block-grown hhdm fuel size phys k h bs pre post s' heap left low count call set =
    let at = placed_top hhdm h bs pre post k (phys + k * page_size + hhdm) s' heap left low in
    let base_is : (phys + hhdm) % u64_mod ≡ phys + k * page_size + hhdm - k * page_size =
      omega (arith, at) in
    let size_is : sub64 (mul64 (suc k) page_size) heap_header_size
        ≡ suc k * page_size - heap_header_size =
      omega (arith, at, set) in
    new_block-phys hhdm fuel size phys k h s' count call set ∙ rw (base_is, size_is) refl

-- How many pages a block of `size` bytes takes after the first.
abbrev pub more_pages : ℕ → ℕ
more_pages size = (heap_header_size + size + page_size - 1) / page_size - 1

-- With fuel for the free pages, the new block of `kmalloc` is a free block of at least `size` bytes in
-- front of the list, in memory that no block had; or the free list has no run of so
-- many pages, and all is as before.
pub new_block_lem :
    (hhdm fuel size : ℕ) (h : Heap) (bs frees : List ℕ)
    → 0 < hhdm
    → IsHeap hhdm h bs frees
    → length frees < fuel
    → size + heap_header_size + page_size ≤ u64_mod
    → ((new_block hhdm fuel size h ≡ some (0, h)) × NoRun (more_pages size) frees)
      ⊎ ((a : ℕ) × (h' : Heap) × (frees' : List ℕ) × (new_block hhdm fuel size h ≡ some (a, h'))
          × (0 < a)
          × Extended hhdm h bs size a h' frees'
          × (length frees' ≤ length frees))
new_block_lem hhdm fuel size h bs frees mapped heap enough small =
    let k = more_pages size in
    let count : add64 (add64 heap_header_size size) (page_size - 1) / page_size ≡ suc k =
      omega (arith, small) in
    elim (pmm_alloc_lem hhdm k fuel h.pmm frees mapped (omega (arith, small)) heap.pages enough) [
      | inl (miss, nowhere) ↦ inl (new_block-none hhdm fuel size k h count miss, nowhere)
      | inr (phys, pre, post, s', call, set, split, left) ↦
          let top = phys + k * page_size + hhdm in
          let held = rw split at heap in
          let low : k * page_size < top = omega (arith, set) in
          let fits = placed_top hhdm h bs pre post k top s' held left low in
          let header = grown_header hhdm h bs pre post k top s' held left low in
          let h' = grown hhdm h bs pre post k top s' held left low in
          inr (
            top - k * page_size,
            h',
            pre ++ post,
            new_block-grown hhdm fuel size phys k h bs pre post s' held left low count call set,
            omega (arith, set),
            record {
              is_heap = grown-IsHeap hhdm h bs pre post k top s' held left low;
              free = ap (λ b. b.is_free) header;
              fits = omega (arith, ap (λ b. b.size) header);
              others = grown_other hhdm h bs pre post k top s' held left low;
            },
            omega (
              arith,
              ap length split,
              length-append pre (pages hhdm phys (suc k) ++ post),
              length-append (pages hhdm phys (suc k)) post,
              length-append pre post,
            ),
          )
    ]
