-- ===== src/Heap/Free.antt =====
-- `kfree` of kernel/src/mm/heap.c gives back one block, and touches no other that is in use.
use mathlib.Core.Path.{subst}
use pros.Common.{
  ℕ, ◌+◌, ◌≤◌, ◌<◌, ◌≡◌, ◌≢◌, refl, ap, sym, ◌∙◌, inl, inr, true, some, List, [], ◌∷◌, ◌++◌, arith,
  update_eq, update_ne, has, sub64, u64_mod, ◌==◌, length, length-append, Bool-cases, ==→eq, ne→==,
}
use pros.Heap.Blocks.{is_free, has-append}
use pros.Pmm.{page_size}
use pros.Heap.{Block, Heap, heap_header_size, heap_block_coalesce, kfree}
use pros.Heap.Coalesce.{coalesce_lem}
use pros.Heap.Mark.{mark, mark-IsBlocks, mark-Clear}
use pros.Heap.Invariant.{IsHeap}
use pros.Heap.Take.{Others}

has-split :
    (a : ℕ) (bs : List ℕ)
    → has a bs ≡ true
    → (pre : List ℕ) × (post : List ℕ) × (bs ≡ pre ++ (a ∷ post))
has-split a [] i = absurd (ground (arith, i))
has-split a (b ∷ bs) i = elim (Bool-cases (a == b)) [
  | inl e ↦ let same = ==→eq a b e in ([], bs, rw same refl)
  | inr e ↦
      let (pre, post, split) = has-split a bs (ground (arith, i, e)) in
      (b ∷ pre, post, ap (λ l. b ∷ l) split)
]

kfree-coalesce :
    (fuel a : ℕ) (h : Heap) (mem' : ℕ → Block)
    → a + heap_header_size < u64_mod
    → heap_block_coalesce fuel a (mark h.block a true) ≡ some mem'
    → kfree fuel (a + heap_header_size) h ≡ some (record h { block = mem' })
unfolding kfree
kfree-coalesce fuel a h mem' small call =
    let back : sub64 (a + heap_header_size) heap_header_size ≡ a = omega (arith, small) in
    rw (kfree, back, ne→== (a + heap_header_size) 0 (omega arith), call) refl

-- The block `a` is free, with at least the bytes that it had.
pub record Freed (a : ℕ) (h : Heap) (bs : List ℕ) (h' : Heap) (bs' : List ℕ) : Type 0 where
  pub has_block : has a bs' ≡ true
  pub free : is_free h'.block a ≡ true
  pub grown : (h.block a).size ≤ (h'.block a).size
  pub others : Others a h bs h' bs'

free_at :
    (hhdm fuel a : ℕ) (h : Heap) (pre post frees : List ℕ)
    → IsHeap hhdm h (pre ++ (a ∷ post)) frees
    → length post < fuel
    → (h' : Heap) × (bs' : List ℕ) × (kfree fuel (a + heap_header_size) h ≡ some h')
      × IsHeap hhdm h' bs' frees
      × Freed a h (pre ++ (a ∷ post)) h' bs'
free_at hhdm fuel a h pre post frees heap enough =
    let here : has a (pre ++ (a ∷ post)) ≡ true = ground (arith, has-append a pre (a ∷ post)) in
    let top = heap.blocks.bounded a here in
    let freed = mark h.block a true in
    let self = update_eq h.block a (record (h.block a) { is_free = true }) in
    let other =
      λ (c : ℕ) (ne : c ≢ a). update_ne h.block a (record (h.block a) { is_free = true }) c ne in
    let (mem', post', call, blocks, merged, fewer) =
      coalesce_lem fuel freed h.heap_block_list pre a post
        (mark-IsBlocks h.block h.heap_block_list a true (pre ++ (a ∷ post)) heap.blocks) enough in
    (
      record h { block = mem' },
      pre ++ (a ∷ post'),
      kfree-coalesce fuel a h mem' (omega (arith, top)) call,
      record {
        blocks = blocks;
        pages = heap.pages;
        placed = heap.placed;
        clear = λ x i.
            merged.clear x (x + page_size) (omega arith)
              (mark-Clear h.block a true (pre ++ (a ∷ post)) x (x + page_size) (heap.clear x i));
      },
      record {
        has_block = merged.has_same;
        free = merged.free_same ∙ ap (λ b. b.is_free) self;
        grown = omega (arith, merged.grown, ap (λ b. b.size) self);
        others = record {
          kept = λ c ne i u. (
            merged.has_kept c i (ap (λ b. b.is_free) (other c ne) ∙ u),
            merged.others c ne ∙ other c ne,
          );
          back = λ c ne i u.
              (merged.has_old c i, ap (λ b. b.is_free) (sym (merged.others c ne ∙ other c ne)) ∙ u);
        };
      },
    )

-- On a heap whose blocks are apart from each other and from the free pages, and with fuel for its
-- blocks, `kfree` of the payload of a block comes to an end: the block is free, with at least the
-- bytes that it had, every other block in use is as before and still in use, no other has come
-- into use, and blocks and free pages are apart again. `kfree` of NULL changes nothing.
pub kfree_lem :
    (hhdm fuel a : ℕ) (h : Heap) (bs frees : List ℕ)
    → IsHeap hhdm h bs frees
    → has a bs ≡ true
    → length bs < fuel
    → (kfree fuel 0 h ≡ some h)
      × ((h' : Heap) × (bs' : List ℕ) × (kfree fuel (a + heap_header_size) h ≡ some h')
          × IsHeap hhdm h' bs' frees
          × Freed a h bs h' bs')
kfree_lem hhdm fuel a h bs frees heap i enough =
    let (pre, post, split) = has-split a bs i in
    let held = subst (λ l. IsHeap hhdm h l frees) split heap in
    let shorter : length post < fuel =
      omega (arith, ap length split, length-append pre (a ∷ post)) in
    let (h', bs', call, heap', freed) = free_at hhdm fuel a h pre post frees held shorter in
    (
      unfold kfree in refl,
      (h', bs', call, heap', subst (λ l. Freed a h l h' bs') (sym split) freed),
    )
