-- ===== src/Heap/Take.antt =====
-- `kmalloc` of kernel/src/mm/heap.c on the block that it has found: split, and marked as in use.
use pros.Common.{
  ℕ, ◌+◌, ◌%◌, ◌≤◌, ◌<◌, ◌≡◌, ◌≢◌, refl, ap, sym, ◌∙◌, Bool, true, false, some, List, ◌∷◌, ◌++◌,
  arith, update_eq, update_ne, has, add64, u64_mod, length,
}
use pros.Heap.Blocks.{is_free, IsBlocks, Clear, has-append}
use pros.Pmm.{page_size}
use pros.Heap.{Block, Heap, heap_header_size, take_block, heap_block_split}
use pros.Heap.Mark.{mark, mark-IsBlocks, mark-Clear}
use pros.Heap.Split.{split_lem}
use pros.Heap.Invariant.{IsHeap}

-- Between two heaps, the block `a` is what an operation worked on: any other block that is in use in
-- the one is in use in the other, with the same header.
pub record Others (a : ℕ) (h : Heap) (bs : List ℕ) (h' : Heap) (bs' : List ℕ) : Type 0 where
  pub kept :
      (c : ℕ)
      → c ≢ a
      → has c bs ≡ true
      → is_free h.block c ≡ false
      → (has c bs' ≡ true) × (h'.block c ≡ h.block c)
  pub back :
      (c : ℕ)
      → c ≢ a
      → has c bs' ≡ true
      → is_free h'.block c ≡ false
      → (has c bs ≡ true) × (is_free h.block c ≡ false)

-- The block `a` was free, or was no block; now it is in use, with at least `size` bytes.
pub record Allocated (a size : ℕ) (h : Heap) (bs : List ℕ) (h' : Heap) (bs' : List ℕ) : Type 0 where
  pub was_free : has a bs ≡ true → is_free h.block a ≡ true
  pub has_block : has a bs' ≡ true
  pub in_use : is_free h'.block a ≡ false
  pub fits : size ≤ (h'.block a).size
  pub others : Others a h bs h' bs'

pub mark-IsHeap :
    (hhdm : ℕ) (h : Heap) (bs bs' frees : List ℕ) (a : ℕ) (v : Bool) (mem' : ℕ → Block)
    → IsHeap hhdm h bs frees
    → IsBlocks mem' h.heap_block_list bs'
    → ((lo hi : ℕ) → lo < hi → Clear lo hi h.block bs → Clear lo hi mem' bs')
    → IsHeap hhdm (record h { block = mark mem' a v }) bs' frees
mark-IsHeap hhdm h bs bs' frees a v mem' heap blocks clear = record {
  blocks = mark-IsBlocks mem' h.heap_block_list a v bs' blocks;
  pages = heap.pages;
  placed = heap.placed;
  clear = λ x i.
      mark-Clear mem' a v bs' x (x + page_size)
        (clear x (x + page_size) (omega arith) (heap.clear x i));
}

take_block-mark :
    (fuel a size : ℕ) (h : Heap) (mem' : ℕ → Block)
    → heap_block_split fuel a size h.block ≡ some mem'
    → add64 a heap_header_size ≡ a + heap_header_size
    → take_block fuel a size h ≡ some (a + heap_header_size, record h { block = mark mem' a false })
unfolding take_block
take_block-mark fuel a size h mem' call payload = rw (take_block, call, payload) refl

pub take_block_lem :
    (hhdm fuel a size : ℕ) (h : Heap) (pre post frees : List ℕ)
    → IsHeap hhdm h (pre ++ (a ∷ post)) frees
    → length post < fuel
    → size % 16 ≡ 0
    → size ≤ (h.block a).size
    → is_free h.block a ≡ true
    → (h' : Heap) × (bs' : List ℕ) × (take_block fuel a size h ≡ some (a + heap_header_size, h'))
      × IsHeap hhdm h' bs' frees
      × Allocated a size h (pre ++ (a ∷ post)) h' bs'
take_block_lem hhdm fuel a size h pre post frees heap enough even fits free =
    let here : has a (pre ++ (a ∷ post)) ≡ true = ground (arith, has-append a pre (a ∷ post)) in
    let top = heap.blocks.bounded a here in
    let (mem', post', call, blocks, shape, fits', free') =
      split_lem fuel h.block h.heap_block_list pre a post size heap.blocks enough even fits in
    let payload : (a + heap_header_size) % u64_mod ≡ a + heap_header_size = omega (arith, top) in
    let self = update_eq mem' a (record (mem' a) { is_free = false }) in
    let other =
      λ (c : ℕ) (ne : c ≢ a). update_ne mem' a (record (mem' a) { is_free = false }) c ne in
    (
      record h { block = mark mem' a false },
      pre ++ (a ∷ post'),
      take_block-mark fuel a size h mem' call payload,
      mark-IsHeap hhdm h (pre ++ (a ∷ post)) (pre ++ (a ∷ post')) frees a false mem' heap blocks
          shape.clear,
      record {
        was_free = λ i. free;
        has_block = shape.has_same;
        in_use = ap (λ b. b.is_free) self;
        fits = omega (arith, ap (λ b. b.size) self, fits');
        others = record {
          kept = λ c ne i u. (shape.has_kept c i u, other c ne ∙ shape.same c ne i u);
          back = λ c ne i u. shape.back c ne i (ap (λ b. b.is_free) (sym (other c ne)) ∙ u);
        };
      },
    )
