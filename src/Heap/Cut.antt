-- ===== src/Heap/Cut.antt =====
-- The cut that `heap_block_split` of kernel/src/mm/heap.c makes in a block: both parts stay apart from
-- the other blocks.
use pros.Common.{
  ℕ, ◌+◌, ◌-◌, ◌%◌, ◌≤◌, ◌<◌, ◌≡◌, ◌≢◌, ◌⊎◌, refl, ap, sym, ◌∙◌, inl, inr, true, false, ◌||◌, List,
  [], ◌∷◌, ◌++◌, arith, update, update_eq, update_ne, Seg, Seg-update, Seg-ext, Avoids, Distinct,
  Distinct-around, Avoids-append, has, u64_mod, ◌==◌, Bool-cases, ==→eq, ==→ne, ne→==,
}
use pros.Heap.{Block, heap_header_size, cut}
use pros.Heap.Blocks.{
  next_of, end_of, IsBlocks, Clear, Seg-replace, Seg-suffix, has-Avoids, has-append,
}

-- The headers of a block and of the remainder, when the block is cut after `size` bytes.
abbrev left_part : (ℕ → Block) → ℕ → ℕ → Block
left_part mem a size = record (mem a) { size = size; next = a + heap_header_size + size }

abbrev right_part : (ℕ → Block) → ℕ → ℕ → Block
right_part mem a size = record {
  size = (mem a).size - heap_header_size - size;
  is_free = true;
  next = (mem a).next;
}

Avoids-insert :
    (x : ℕ) (pre : List ℕ) (a r : ℕ) (post : List ℕ)
    → Avoids x (pre ++ (a ∷ post))
    → r ≢ x
    → Avoids x (pre ++ (a ∷ r ∷ post))
Avoids-insert x [] a r post h ne = (h.0, (ne, h.1))
Avoids-insert x (y ∷ pre) a r post h ne = (h.0, Avoids-insert x pre a r post h.1 ne)

Distinct-insert :
    (pre : List ℕ) (a r : ℕ) (post : List ℕ)
    → Distinct (pre ++ (a ∷ post))
    → Avoids r (pre ++ (a ∷ post))
    → Distinct (pre ++ (a ∷ r ∷ post))
Distinct-insert [] a r post h out = (((λ e. out.0 (sym e)), h.0), (out.1, h.1))
Distinct-insert (x ∷ pre) a r post h out =
    (Avoids-insert x pre a r post h.0 (λ e. out.0 (sym e)), Distinct-insert pre a r post h.1 out.1)

module _ (mem : ℕ → Block) (head : ℕ) (pre : List ℕ) (a : ℕ) (post : List ℕ) (size : ℕ)
    (h : IsBlocks mem head (pre ++ (a ∷ post))) (room : size + heap_header_size + 16 ≤ (mem a).size)
    (even : size % 16 ≡ 0) where
  pub remainder : ℕ
  remainder = a + heap_header_size + size

  pub remainder_ne : remainder ≢ a
  unfolding remainder
  remainder_ne = omega arith

  pub has_here : has a (pre ++ (a ∷ post)) ≡ true
  has_here = ground (arith, has-append a pre (a ∷ post))

  here : (0 < a) × (end_of mem a < u64_mod)
  here = h.bounded a has_here

  pub has_all :
      (c : ℕ)
      → has c (pre ++ (a ∷ remainder ∷ post)) ≡ (c == remainder || has c (pre ++ (a ∷ post)))
  has_all c = ground (arith, has-append c pre (a ∷ remainder ∷ post), has-append c pre (a ∷ post))

  -- The remainder begins inside the block, where no other block is.
  pub no_block : has remainder (pre ++ (a ∷ post)) ≡ false
  unfolding remainder
  no_block = elim (Bool-cases (has (a + heap_header_size + size) (pre ++ (a ∷ post)))) [
    | inr e ↦ e
    | inl e ↦
        let t = h.apart a (a + heap_header_size + size) has_here e (omega arith) in
        absurd (ground (arith, t, room))
  ]

  pub after : ℕ → Block
  unfolding remainder
  after = update (update mem remainder (right_part mem a size)) a (left_part mem a size)

  pub after_here : after a ≡ left_part mem a size
  unfolding after
  after_here = update_eq (update mem remainder (right_part mem a size)) a (left_part mem a size)

  pub after_rest : after remainder ≡ right_part mem a size
  unfolding after remainder
  after_rest =
      update_ne (update mem remainder (right_part mem a size)) a (left_part mem a size) remainder
        (omega arith)
      ∙ update_eq mem remainder (right_part mem a size)

  pub after_other : (c : ℕ) → c ≢ a → c ≢ remainder → after c ≡ mem c
  unfolding after
  after_other c ne ne' =
      update_ne (update mem remainder (right_part mem a size)) a (left_part mem a size) c ne
      ∙ update_ne mem remainder (right_part mem a size) c ne'

  pub cut-after : cut a size mem ≡ (remainder, after)
  unfolding cut after remainder
  cut-after =
      let place : ((a + heap_header_size) % u64_mod + size) % u64_mod
          ≡ a + heap_header_size + size =
        omega (arith, here, room) in
      let rest : (((mem a).size + u64_mod - heap_header_size % u64_mod) % u64_mod
              + u64_mod
              - size % u64_mod)
            % u64_mod
          ≡ (mem a).size - heap_header_size - size =
        omega (arith, here, room) in
      let ne = ne→== a (a + heap_header_size + size) (omega arith) in rw (place, rest, ne) refl

  Avoids-remainder : Avoids remainder (pre ++ (a ∷ post))
  Avoids-remainder = has-Avoids remainder (pre ++ (a ∷ post)) no_block

  after-chain : Seg (next_of after) 0 head (pre ++ (a ∷ remainder ∷ post))
  unfolding after remainder
  after-chain =
      let r = a + heap_header_size + size in
      let links = update (next_of mem) r (next_of mem a) in
      let (front, back) = Avoids-append r pre (a ∷ post) Avoids-remainder in
      let (out, out') = Distinct-around a pre post h.distinct in
      let rest = (Seg-suffix (next_of mem) 0 head a pre post h.chain).2 in
      let rest' =
        Seg-update links 0 (next_of mem a) a r post out'
          (Seg-update (next_of mem) 0 (next_of mem a) r (next_of mem a) post back.1 rest) in
      let from : update links a r r ≡ next_of mem a =
        update_ne links a r r (omega arith) ∙ update_eq (next_of mem) r (next_of mem a) in
      let whole =
        Seg-replace links 0 head a r pre post (r ∷ post)
          (Seg-update (next_of mem) 0 head r (next_of mem a) (pre ++ (a ∷ post)) Avoids-remainder
            h.chain)
          out (refl, omega arith, rw from rest') in
      Seg-ext (update links a r) (next_of after) 0 head (pre ++ (a ∷ r ∷ post)) (λ c. ground arith)
        whole

  end_here : end_of after a ≡ remainder
  unfolding remainder
  end_here = ap (λ b. a + heap_header_size + b.size) after_here

  end_rest : end_of after remainder ≡ end_of mem a
  unfolding remainder
  end_rest = let e = ap (λ b. b.size) after_rest in omega (arith, e, room)

  end_other : (c : ℕ) → c ≢ a → c ≢ remainder → end_of after c ≡ end_of mem c
  end_other c ne ne' = ap (λ b. c + heap_header_size + b.size) (after_other c ne ne')

  -- A block of the new list is the shortened one, the remainder, or an old one.
  sort_of :
      (c : ℕ)
      → has c (pre ++ (a ∷ remainder ∷ post)) ≡ true
      → (c ≡ a)
        ⊎ ((c ≡ remainder) ⊎ ((c ≢ a) × (c ≢ remainder) × (has c (pre ++ (a ∷ post)) ≡ true)))
  sort_of c i = elim (Bool-cases (c == a)) [
    | inl e ↦ inl (==→eq c a e)
    | inr e ↦ elim (Bool-cases (c == remainder)) [
      | inl e' ↦ inr (inl (==→eq c remainder e'))
      | inr e' ↦ inr (inr (==→ne c a e, ==→ne c remainder e', ground (arith, has_all c)))
    ]
  ]

  pub after-Clear :
      (lo hi : ℕ)
      → lo < hi
      → Clear lo hi mem (pre ++ (a ∷ post))
      → Clear lo hi after (pre ++ (a ∷ remainder ∷ post))
  unfolding remainder
  after-Clear lo hi lt clear c i =
      let at_a = clear a has_here in
      elim (sort_of c i) [
        | inl e ↦ rw (e, end_here) (ground (arith, at_a, room))
        | inr (inl e) ↦ rw (e, end_rest) (ground (arith, at_a))
        | inr (inr (ne, ne', old)) ↦ rw (end_other c ne ne') (clear c old)
      ]

  after-bounded :
      (c : ℕ) → has c (pre ++ (a ∷ remainder ∷ post)) ≡ true → (0 < c) × (end_of after c < u64_mod)
  unfolding remainder
  after-bounded c i = elim (sort_of c i) [
    | inl e ↦ rw (e, end_here) (here.0, omega (arith, here, room))
    | inr (inl e) ↦ rw (e, end_rest) (omega arith, here.1)
    | inr (inr (ne, ne', old)) ↦ rw (end_other c ne ne') (h.bounded c old)
  ]

  after-aligned :
      (c : ℕ)
      → has c (pre ++ (a ∷ remainder ∷ post)) ≡ true
      → (c % 16 ≡ 0) × ((after c).size % 16 ≡ 0)
  unfolding remainder
  after-aligned c i =
      let (at, size_at) = h.aligned a has_here in
      elim (sort_of c i) [
        | inl e ↦ rw (e, after_here) (at, even)
        | inr (inl e) ↦
            rw (e, after_rest) (omega (arith, at, even), omega (arith, size_at, even, room))
        | inr (inr (ne, ne', old)) ↦ rw (after_other c ne ne') (h.aligned c old)
      ]

  -- The old blocks are apart from both parts, since these lie in a block that they are apart from.
  apart_parts :
      (c : ℕ)
      → c ≢ a
      → c ≢ remainder
      → has c (pre ++ (a ∷ post)) ≡ true
      → ((end_of after c ≤ a) ⊎ (end_of after a ≤ c))
        × ((end_of after c ≤ remainder) ⊎ (end_of after remainder ≤ c))
  unfolding remainder
  apart_parts c ne ne' old =
      let t = h.apart c a old has_here ne in
      rw (end_other c ne ne', end_here, end_rest) (ground (arith, t, room), ground (arith, t, room))

  after-apart :
      (c d : ℕ)
      → has c (pre ++ (a ∷ remainder ∷ post)) ≡ true
      → has d (pre ++ (a ∷ remainder ∷ post)) ≡ true
      → c ≢ d
      → (end_of after c ≤ d) ⊎ (end_of after d ≤ c)
  after-apart c d i j ne = elim (sort_of c i) [
    | inl e ↦ elim (sort_of d j) [
      | inl e' ↦ absurd (ne (e ∙ sym e'))
      | inr (inl e') ↦ rw (e, e') (inl (omega (arith, end_here)))
      | inr (inr (na, nr, old)) ↦ let t = (apart_parts d na nr old).0 in rw e (ground (arith, t))
    ]
    | inr (inl e) ↦ elim (sort_of d j) [
      | inl e' ↦ rw (e, e') (inr (omega (arith, end_here)))
      | inr (inl e') ↦ absurd (ne (e ∙ sym e'))
      | inr (inr (na, nr, old)) ↦ let t = (apart_parts d na nr old).1 in rw e (ground (arith, t))
    ]
    | inr (inr (na, nr, old)) ↦ elim (sort_of d j) [
      | inl e' ↦ rw e' (apart_parts c na nr old).0
      | inr (inl e') ↦ rw e' (apart_parts c na nr old).1
      | inr (inr (na', nr', old')) ↦
          rw (end_other c na nr, end_other d na' nr') (h.apart c d old old' ne)
    ]
  ]

  pub after-IsBlocks : IsBlocks after head (pre ++ (a ∷ remainder ∷ post))
  after-IsBlocks = record {
    chain = after-chain;
    distinct = Distinct-insert pre a remainder post h.distinct Avoids-remainder;
    bounded = after-bounded;
    aligned = after-aligned;
    apart = after-apart;
  }
