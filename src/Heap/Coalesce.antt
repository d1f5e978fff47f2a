-- ===== src/Heap/Coalesce.antt =====
-- `heap_block_coalesce` of kernel/src/mm/heap.c keeps the blocks of a heap apart.
use pros.Common.{
  ℕ, zero, suc, ◌+◌, ◌%◌, ◌≤◌, ◌<◌, ◌≡◌, refl, inl, inr, true, false, some, List, [], ◌∷◌, ◌++◌,
  arith, has, u64_mod, length, Bool-cases,
}
use pros.Heap.{Block, heap_header_size, may_absorb, heap_block_coalesce}
use pros.Heap.Blocks.{
  next_of, end_of, is_free, IsBlocks, Merged, Merged-refl, Merged-trans, Seg-suffix, has-append,
}
use pros.Heap.Absorb.{after, after-IsBlocks, after-Merged, absorb-after, next_is, has_here}

may_absorb_lem :
    (mem : ℕ → Block) (a n : ℕ)
    → next_of mem a ≡ n
    → end_of mem a < u64_mod
    → may_absorb a mem ≡ true
    → (is_free mem n ≡ true) × (end_of mem a ≡ n)
unfolding may_absorb
may_absorb_lem mem a n e b y =
    let exact : ((a + heap_header_size) % u64_mod + (mem a).size) % u64_mod ≡ end_of mem a =
      omega (arith, b) in
    let y' = rw (e, exact) at y in (ground (arith, y'), ground (arith, y'))

may_absorb-last : (mem : ℕ → Block) (a : ℕ) → next_of mem a ≡ 0 → may_absorb a mem ≡ false
unfolding may_absorb
may_absorb-last mem a e = rw e refl

has_at : (a : ℕ) (pre post : List ℕ) → has a (pre ++ (a ∷ post)) ≡ true
has_at a pre post = ground (arith, has-append a pre (a ∷ post))

-- With fuel for the blocks behind `a`, `heap_block_coalesce` comes to an end; the heap is as before but
-- for free blocks directly behind `a`, which are now a part of it.
pub coalesce_lem :
    (fuel : ℕ) (mem : ℕ → Block) (head : ℕ) (pre : List ℕ) (a : ℕ) (post : List ℕ)
    → IsBlocks mem head (pre ++ (a ∷ post))
    → length post < fuel
    → (mem' : ℕ → Block) × (post' : List ℕ) × (heap_block_coalesce fuel a mem ≡ some mem')
      × IsBlocks mem' head (pre ++ (a ∷ post'))
      × Merged a mem (pre ++ (a ∷ post)) mem' (pre ++ (a ∷ post'))
      × (length post' ≤ length post)
unfolding heap_block_coalesce
coalesce_lem zero mem head pre a post h enough = absurd (omega arith)
coalesce_lem (suc fuel) mem head pre a [] h enough =
    let last = may_absorb-last mem a (Seg-suffix (next_of mem) 0 head a pre [] h.chain).2 in
    (mem, [], rw last refl, h, Merged-refl a mem (pre ++ (a ∷ [])) (has_at a pre []), omega arith)
coalesce_lem (suc fuel) mem head pre a (n ∷ post) h enough = elim (Bool-cases (may_absorb a mem)) [
  | inr e ↦ (
    mem,
    n ∷ post,
    rw e refl,
    h,
    Merged-refl a mem (pre ++ (a ∷ n ∷ post)) (has_at a pre (n ∷ post)),
    omega arith,
  )
  | inl e ↦
      let here = h.bounded a (has_here mem head pre a n post h) in
      let (free, meets) = may_absorb_lem mem a n (next_is mem head pre a n post h) here.1 e in
      let mem1 = after mem head pre a n post h free meets in
      let step = absorb-after mem head pre a n post h free meets in
      let (mem', post', call, blocks, merged, fewer) =
        coalesce_lem fuel mem1 head pre a post (after-IsBlocks mem head pre a n post h free meets)
          (omega arith) in
      (
        mem',
        post',
        rw (e, step) call,
        blocks,
        Merged-trans a (after-Merged mem head pre a n post h free meets) merged,
        omega (arith, fewer),
      )
]
