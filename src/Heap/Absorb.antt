-- ===== src/Heap/Absorb.antt =====
-- One absorbed block in `heap_block_coalesce` of kernel/src/mm/heap.c: the others stay apart.
use pros.Common.{
  ℕ, ◌+◌, ◌%◌, ◌≤◌, ◌<◌, ◌≡◌, ◌≢◌, ◌⊎◌, refl, ap, sym, ◌∙◌, inl, inr, true, false, ◌||◌, List, [],
  ◌∷◌, ◌++◌, arith, update, update_eq, update_ne, Seg, Seg-update, Seg-ext, Avoids, Distinct,
  Distinct-around, has, Avoids-has, u64_mod, ◌==◌, Bool-cases, ==→eq, ==→ne,
}
use pros.Heap.{Block, heap_header_size, absorb}
use pros.Heap.Blocks.{
  next_of, end_of, is_free, IsBlocks, Clear, Merged, Seg-replace, Seg-suffix, has-append,
  next_of-update,
}

-- The header of `a` with the block `n` absorbed.
abbrev merged : (ℕ → Block) → ℕ → ℕ → Block
merged mem a n = record (mem a) {
  size = (mem a).size + (heap_header_size + (mem n).size);
  next = (mem n).next;
}

Avoids-remove :
    (x : ℕ) (pre : List ℕ) (a n : ℕ) (post : List ℕ)
    → Avoids x (pre ++ (a ∷ n ∷ post))
    → (n ≢ x) × Avoids x (pre ++ (a ∷ post))
Avoids-remove x [] a n post h = (h.1.0, (h.0, h.1.1))
Avoids-remove x (y ∷ pre) a n post h =
    let (ne, rest) = Avoids-remove x pre a n post h.1 in (ne, (h.0, rest))

pub Distinct-remove :
    (pre : List ℕ) (a n : ℕ) (post : List ℕ)
    → Distinct (pre ++ (a ∷ n ∷ post))
    → Avoids n (pre ++ (a ∷ post)) × Distinct (pre ++ (a ∷ post))
Distinct-remove [] a n post h = (((λ e. h.0.0 (sym e)), h.1.0), (h.0.1, h.1.1))
Distinct-remove (x ∷ pre) a n post h =
    let (out, rest) = Distinct-remove pre a n post h.1 in
    let (ne, out') = Avoids-remove x pre a n post h.0 in (((λ e. ne (sym e)), out), (out', rest))

module _ (mem : ℕ → Block) (head : ℕ) (pre : List ℕ) (a n : ℕ) (post : List ℕ)
    (h : IsBlocks mem head (pre ++ (a ∷ n ∷ post))) where
  has_all :
      (c : ℕ)
      → has c (pre ++ (a ∷ n ∷ post)) ≡ (has c pre || ((c == a) || ((c == n) || has c post)))
  has_all c = has-append c pre (a ∷ n ∷ post)

  has_left : (c : ℕ) → has c (pre ++ (a ∷ post)) ≡ (has c pre || ((c == a) || has c post))
  has_left c = has-append c pre (a ∷ post)

  pub has_here : has a (pre ++ (a ∷ n ∷ post)) ≡ true
  has_here = ground (arith, has_all a)

  has_next : has n (pre ++ (a ∷ n ∷ post)) ≡ true
  has_next = ground (arith, has_all n)

  has_left_here : has a (pre ++ (a ∷ post)) ≡ true
  has_left_here = ground (arith, has_left a)

  pub next_is : next_of mem a ≡ n
  next_is = (Seg-suffix (next_of mem) 0 head a pre (n ∷ post) h.chain).2.0

  around : Avoids a pre × Avoids a (n ∷ post)
  around = Distinct-around a pre (n ∷ post) h.distinct

  -- The absorbed block is in the list no more.
  gone : has n (pre ++ (a ∷ post)) ≡ false
  gone = Avoids-has n (pre ++ (a ∷ post)) (Distinct-remove pre a n post h.distinct).0

  subset : (c : ℕ) → has c (pre ++ (a ∷ post)) ≡ true → has c (pre ++ (a ∷ n ∷ post)) ≡ true
  subset c i = ground (arith, has_all c, has_left c)

  kept : (c : ℕ) → has c (pre ++ (a ∷ n ∷ post)) ≡ true → c ≢ n → has c (pre ++ (a ∷ post)) ≡ true
  kept c i ne = ground (arith, has_all c, has_left c)

  left_ne : (c : ℕ) → has c (pre ++ (a ∷ post)) ≡ true → c ≢ n
  left_ne c i e = let g = gone in ground (arith, g, e)

  module _ (free : is_free mem n ≡ true) (meets : end_of mem a ≡ n) where
    pub after : ℕ → Block
    after = update mem a (merged mem a n)

    after_ne : (c : ℕ) → c ≢ a → after c ≡ mem c
    unfolding after
    after_ne c ne = update_ne mem a (merged mem a n) c ne

    after_eq : after a ≡ merged mem a n
    unfolding after
    after_eq = update_eq mem a (merged mem a n)

    end_after : end_of after a ≡ end_of mem n
    end_after = let e = ap (λ b. b.size) after_eq in omega (arith, e, meets)

    end_other : (c : ℕ) → c ≢ a → end_of after c ≡ end_of mem c
    end_other c ne = ap (λ b. c + heap_header_size + b.size) (after_ne c ne)

    after-chain : Seg (next_of after) 0 head (pre ++ (a ∷ post))
    unfolding after
    after-chain =
        let rest = (Seg-suffix (next_of mem) 0 head a pre (n ∷ post) h.chain).2.2 in
        Seg-ext (update (next_of mem) a (next_of mem n)) (next_of after) 0 head (pre ++ (a ∷ post))
          (λ c. next_of-update mem a c (merged mem a n))
          (Seg-replace (next_of mem) 0 head a (next_of mem n) pre (n ∷ post) post h.chain around.0
            (Seg-update (next_of mem) 0 (next_of mem n) a (next_of mem n) post around.1.1 rest))

    after-Clear :
        (lo hi : ℕ)
        → lo < hi
        → Clear lo hi mem (pre ++ (a ∷ n ∷ post))
        → Clear lo hi after (pre ++ (a ∷ post))
    after-Clear lo hi lt clear c i = elim (Bool-cases (c == a)) [
      | inl e ↦
          let c_is = ==→eq c a e in
          let at_a = clear a has_here in
          let at_n = clear n has_next in rw c_is (ground (arith, at_a, at_n, end_after, meets))
      | inr e ↦ let old = clear c (subset c i) in rw (end_other c (==→ne c a e)) old
    ]

    apart_here :
        (d : ℕ)
        → has d (pre ++ (a ∷ post)) ≡ true
        → d ≢ a
        → (end_of after a ≤ d) ⊎ (end_of after d ≤ a)
    apart_here d j ne =
        let from_a = h.apart a d has_here (subset d j) (λ e. ne (sym e)) in
        let from_n = h.apart n d has_next (subset d j) (λ e. left_ne d j (sym e)) in
        rw (end_other d ne) (ground (arith, from_a, from_n, end_after, meets))

    after-bounded :
        (c : ℕ) → has c (pre ++ (a ∷ post)) ≡ true → (0 < c) × (end_of after c < u64_mod)
    after-bounded c i = elim (Bool-cases (c == a)) [
      | inl e ↦
          let at_n = h.bounded n has_next in
          let at_a = h.bounded a has_here in rw (==→eq c a e, end_after) (at_a.0, at_n.1)
      | inr e ↦ rw (end_other c (==→ne c a e)) (h.bounded c (subset c i))
    ]

    after-aligned :
        (c : ℕ) → has c (pre ++ (a ∷ post)) ≡ true → (c % 16 ≡ 0) × ((after c).size % 16 ≡ 0)
    after-aligned c i = elim (Bool-cases (c == a)) [
      | inl e ↦
          let at_n = h.aligned n has_next in
          let at_a = h.aligned a has_here in
          rw (==→eq c a e, after_eq) (at_a.0, omega (arith, at_a, at_n))
      | inr e ↦ rw (after_ne c (==→ne c a e)) (h.aligned c (subset c i))
    ]

    after-apart :
        (c d : ℕ)
        → has c (pre ++ (a ∷ post)) ≡ true
        → has d (pre ++ (a ∷ post)) ≡ true
        → c ≢ d
        → (end_of after c ≤ d) ⊎ (end_of after d ≤ c)
    after-apart c d i j ne = elim (Bool-cases (c == a)) [
      | inl e ↦ let c_is = ==→eq c a e in rw c_is (apart_here d j (λ q. ne (c_is ∙ sym q)))
      | inr e ↦ elim (Bool-cases (d == a)) [
        | inl e' ↦
            let d_is = ==→eq d a e' in
            let here = apart_here c i (==→ne c a e) in rw d_is (ground (arith, here))
        | inr e' ↦
            rw (end_other c (==→ne c a e), end_other d (==→ne d a e'))
              (h.apart c d (subset c i) (subset d j) ne)
      ]
    ]

    pub after-IsBlocks : IsBlocks after head (pre ++ (a ∷ post))
    after-IsBlocks = record {
      chain = after-chain;
      distinct = (Distinct-remove pre a n post h.distinct).1;
      bounded = after-bounded;
      aligned = after-aligned;
      apart = after-apart;
    }

    pub after-Merged : Merged a mem (pre ++ (a ∷ n ∷ post)) after (pre ++ (a ∷ post))
    after-Merged = record {
      has_same = has_left_here;
      has_kept = λ c i u. kept c i (λ e. absurd (let f = ap (is_free mem) e in cc));
      has_old = subset;
      others = after_ne;
      free_same = ap (λ b. b.is_free) after_eq;
      grown = let e = ap (λ b. b.size) after_eq in omega (arith, e);
      clear = after-Clear;
    }

    pub absorb-after : absorb a mem ≡ after
    unfolding absorb after
    absorb-after =
        let size : ((mem a).size + (heap_header_size + (mem n).size) % u64_mod) % u64_mod
            ≡ (mem a).size + (heap_header_size + (mem n).size) =
          omega (arith, h.bounded n has_next, meets) in
        rw (next_is, size) refl
