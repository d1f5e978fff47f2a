-- ===== src/Heap/Push.antt =====
-- kernel/src/mm/heap.c: a new block in front of the list, where no block is.
use mathlib.Core.Path.{subst}
use pros.Common.{
  ℕ, ◌+◌, ◌%◌, ◌≤◌, ◌<◌, ◌≡◌, ◌≢◌, ◌⊎◌, refl, ap, sym, ◌∙◌, inl, inr, true, false, List, ◌∷◌, arith,
  update, update_eq, update_ne, Seg, Seg-update, Seg-ext, has, u64_mod, ◌==◌, Bool-cases, ==→eq,
  ==→ne,
}
use pros.Heap.Blocks.{next_of, end_of, IsBlocks, Clear, has-Avoids, next_of-update}
use pros.Heap.{Block, heap_header_size}

-- The header of a new block.
abbrev pub header : ℕ → ℕ → Block
header size head = record { size = size; is_free = true; next = head }

module _ (mem : ℕ → Block) (head : ℕ) (bs : List ℕ) (a size : ℕ) (h : IsBlocks mem head bs)
    (clear : Clear a (a + heap_header_size + size) mem bs)
    (bounded : (0 < a) × (a + heap_header_size + size < u64_mod))
    (aligned : (a % 16 ≡ 0) × (size % 16 ≡ 0)) where
  unfoldable pub pushed : ℕ → Block
  pushed = update mem a (header size head)

  pub no_block : has a bs ≡ false
  no_block = elim (Bool-cases (has a bs)) [
    | inr e ↦ e
    | inl e ↦ let t = clear a e in absurd (ground (arith, t))
  ]

  pub old_ne : (c : ℕ) → has c bs ≡ true → c ≢ a
  old_ne c i e = let t = no_block in absurd (let f = ap (λ d. has d bs) e in cc)

  pub pushed_here : pushed a ≡ header size head
  unfolding pushed
  pushed_here = update_eq mem a (header size head)

  pub pushed_other : (c : ℕ) → c ≢ a → pushed c ≡ mem c
  unfolding pushed
  pushed_other c ne = update_ne mem a (header size head) c ne

  end_here : end_of pushed a ≡ a + heap_header_size + size
  end_here = ap (λ b. a + heap_header_size + b.size) pushed_here

  end_other : (c : ℕ) → c ≢ a → end_of pushed c ≡ end_of mem c
  end_other c ne = ap (λ b. c + heap_header_size + b.size) (pushed_other c ne)

  sort_of : (c : ℕ) → has c (a ∷ bs) ≡ true → (c ≡ a) ⊎ ((c ≢ a) × (has c bs ≡ true))
  sort_of c i = elim (Bool-cases (c == a)) [
    | inl e ↦ inl (==→eq c a e)
    | inr e ↦ inr (==→ne c a e, ground (arith, i, e))
  ]

  pushed-chain : Seg (next_of pushed) 0 a (a ∷ bs)
  unfolding pushed
  pushed-chain =
      let b : Block = header size head in
      let links = Seg-update (next_of mem) 0 head a head bs (has-Avoids a bs no_block) h.chain in
      let same = λ (c : ℕ). next_of-update mem a c b in
      let first : next_of pushed a ≡ head = ap (λ c. c.next) pushed_here in
      (
        refl,
        omega (arith, bounded),
        subst (λ p. Seg (next_of pushed) 0 p bs) (sym first)
            (Seg-ext (update (next_of mem) a head) (next_of (update mem a b)) 0 head bs same links),
      )

  pub pushed-Clear :
      (lo hi : ℕ)
      → Clear lo hi mem bs
      → ((hi ≤ a) ⊎ (a + heap_header_size + size ≤ lo))
      → Clear lo hi pushed (a ∷ bs)
  pushed-Clear lo hi out apart c i = elim (sort_of c i) [
    | inl e ↦ rw (e, end_here) apart
    | inr (ne, old) ↦ rw (end_other c ne) (out c old)
  ]

  apart_here : (c : ℕ) → c ≢ a → has c bs ≡ true → (end_of pushed a ≤ c) ⊎ (end_of pushed c ≤ a)
  apart_here c ne old = rw (end_here, end_other c ne) (clear c old)

  pub pushed-IsBlocks : IsBlocks pushed a (a ∷ bs)
  pushed-IsBlocks = record {
    chain = pushed-chain;
    distinct = (has-Avoids a bs no_block, h.distinct);
    bounded = λ c i. elim (sort_of c i) [
      | inl e ↦ rw (e, end_here) bounded
      | inr (ne, old) ↦ rw (end_other c ne) (h.bounded c old)
    ];
    aligned = λ c i. elim (sort_of c i) [
      | inl e ↦ rw (e, pushed_here) aligned
      | inr (ne, old) ↦ rw (pushed_other c ne) (h.aligned c old)
    ];
    apart = λ c d i j ne. elim (sort_of c i) [
      | inl e ↦ elim (sort_of d j) [
        | inl e' ↦ absurd (ne (e ∙ sym e'))
        | inr (na, old) ↦ rw e (apart_here d na old)
      ]
      | inr (na, old) ↦ elim (sort_of d j) [
        | inl e' ↦ let t = apart_here c na old in rw e' (ground (arith, t))
        | inr (na', old') ↦ rw (end_other c na, end_other d na') (h.apart c d old old' ne)
      ]
    ];
  }
