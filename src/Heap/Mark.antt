-- ===== src/Heap/Mark.antt =====
-- kernel/src/mm/heap.c: a block of the list marked as free or in use, and the search for a free one.
use pros.Common.{
  ℕ, zero, suc, ◌≤◌, ◌<◌, ◌≡◌, ◌⊎◌, refl, ap, inl, inr, Bool, true, ◌&&◌, some, List, [], ◌∷◌, ◌++◌,
  arith, update, Seg, Seg-ext, has, leb, ◌==◌, length, Bool-cases, leb→le, leb→gt, ==→eq, ne→==,
}
use pros.Heap.Blocks.{next_of, is_free, IsBlocks, Clear}
use pros.Heap.{Block, search_free}

abbrev pub mark : (ℕ → Block) → ℕ → Bool → ℕ → Block
mark mem a v = update mem a (record (mem a) { is_free = v })

pub mark_size : (mem : ℕ → Block) (a : ℕ) (v : Bool) (c : ℕ) → (mark mem a v c).size ≡ (mem c).size
mark_size mem a v c = ground arith

mark_next : (mem : ℕ → Block) (a : ℕ) (v : Bool) (c : ℕ) → next_of mem c ≡ next_of (mark mem a v) c
mark_next mem a v c = ground arith

-- A mark moves no block.
pub mark-IsBlocks :
    (mem : ℕ → Block) (head a : ℕ) (v : Bool) (bs : List ℕ)
    → IsBlocks mem head bs
    → IsBlocks (mark mem a v) head bs
mark-IsBlocks mem head a v bs h = record {
  chain = Seg-ext (next_of mem) (next_of (mark mem a v)) 0 head bs (mark_next mem a v) h.chain;
  distinct = h.distinct;
  bounded = λ c i. rw (mark_size mem a v c) (h.bounded c i);
  aligned = λ c i. rw (mark_size mem a v c) (h.aligned c i);
  apart = λ c d i j ne. rw (mark_size mem a v c, mark_size mem a v d) (h.apart c d i j ne);
}

pub mark-Clear :
    (mem : ℕ → Block) (a : ℕ) (v : Bool) (bs : List ℕ) (lo hi : ℕ)
    → Clear lo hi mem bs
    → Clear lo hi (mark mem a v) bs
mark-Clear mem a v bs lo hi clear c i = rw (mark_size mem a v c) (clear c i)

-- The search comes to the end of the list, where no free block is large enough, or finds a free block of at least `size` bytes in it.
pub search_free_lem :
    (fuel : ℕ) (mem : ℕ → Block) (search size : ℕ) (bs : List ℕ)
    → Seg (next_of mem) 0 search bs
    → length bs < fuel
    → ((search_free fuel mem search size ≡ some 0)
        × ((c : ℕ) → has c bs ≡ true → is_free mem c ≡ true → (mem c).size < size))
      ⊎ ((pre : List ℕ) × (a : ℕ) × (post : List ℕ) × (bs ≡ pre ++ (a ∷ post))
          × (search_free fuel mem search size ≡ some a)
          × (is_free mem a ≡ true)
          × (size ≤ (mem a).size))
unfolding search_free
search_free_lem zero mem search size bs s enough = absurd (omega arith)
search_free_lem (suc fuel) mem search size [] s enough =
    inl (rw s refl, λ c i f. absurd (ground (arith, i)))
search_free_lem (suc fuel) mem search size (b ∷ bs) s enough =
    let set = ne→== b 0 s.1 in
    elim (Bool-cases ((mem b).is_free && leb size (mem b).size)) [
      | inl e ↦ inr (
        [],
        b,
        bs,
        refl,
        rw (s.0, set, e) refl,
        ground (arith, e),
        leb→le size (mem b).size (ground (arith, e)),
      )
      | inr e ↦ elim (search_free_lem fuel mem (next_of mem b) size bs s.2 (omega arith)) [
        | inl (miss, small) ↦ inl (
          rw (s.0, set, e) miss,
          λ c i f. elim (Bool-cases (c == b)) [
            | inl same ↦
                let c_is = ==→eq c b same in
                let f' : is_free mem b ≡ true = rw (← c_is) f in
                rw c_is (leb→gt size (mem b).size (ground (arith, e, f')))
            | inr other ↦ small c (ground (arith, i, other)) f
          ],
        )
        | inr (pre, a, post, split, found, free, fits) ↦
            inr (b ∷ pre, a, post, ap (λ l. b ∷ l) split, rw (s.0, set, e) found, free, fits)
      ]
    ]
