-- ===== src/Heap/Split.antt =====
-- `heap_block_split` of kernel/src/mm/heap.c keeps the blocks of a heap apart and those in use as they are.
use mathlib.Core.Path.{subst}
use pros.Common.{
  ℕ, ◌+◌, ◌%◌, ◌≤◌, ◌<◌, ◌≡◌, ◌≢◌, refl, ap, sym, ◌∙◌, inl, inr, true, false, some, List, [], ◌∷◌,
  ◌++◌, arith, has, add64, u64_mod, ltb, ◌==◌, length, append_assoc, Bool-cases, ltb→ge, ==→eq,
  ==→ne,
}
use pros.Heap.{Block, heap_header_size, heap_alignment, cut, heap_block_split, heap_block_coalesce}
use pros.Heap.Blocks.{is_free, IsBlocks, Clear, Merged, Merged-refl, has-append}
use pros.Heap.Coalesce.{coalesce_lem}
use pros.Heap.Cut

-- A change of the blocks by an operation on `a`: the other blocks in use are the same as before.
pub record Reshaped (a : ℕ) (mem : ℕ → Block) (bs : List ℕ) (mem' : ℕ → Block) (bs' : List ℕ)
    : Type 0 where
  pub has_same : has a bs' ≡ true
  pub has_kept : (c : ℕ) → has c bs ≡ true → is_free mem c ≡ false → has c bs' ≡ true
  pub same : (c : ℕ) → c ≢ a → has c bs ≡ true → is_free mem c ≡ false → mem' c ≡ mem c
  pub back :
      (c : ℕ)
      → c ≢ a
      → has c bs' ≡ true
      → is_free mem' c ≡ false
      → (has c bs ≡ true) × (is_free mem c ≡ false)
  pub clear : (lo hi : ℕ) → lo < hi → Clear lo hi mem bs → Clear lo hi mem' bs'

pub Merged-Reshaped :
    (a : ℕ) {mem mem' : ℕ → Block} {bs bs' : List ℕ}
    → Merged a mem bs mem' bs'
    → Reshaped a mem bs mem' bs'
Merged-Reshaped a m = record {
  has_same = m.has_same;
  has_kept = m.has_kept;
  same = λ c ne i u. m.others c ne;
  back = λ c ne i u. (m.has_old c i, ap (λ b. b.is_free) (sym (m.others c ne)) ∙ u);
  clear = m.clear;
}

module _ (mem : ℕ → Block) (head : ℕ) (pre : List ℕ) (a : ℕ) (post : List ℕ) (size : ℕ)
    (h : IsBlocks mem head (pre ++ (a ∷ post))) (room : size + heap_header_size + 16 ≤ (mem a).size)
    (even : size % 16 ≡ 0) where
  abbrev rest_of : ℕ
  rest_of = Cut.remainder mem head pre a post size h room even

  abbrev cut_of : ℕ → Block
  cut_of = Cut.after mem head pre a post size h room even

  rest_ne : rest_of ≢ a
  rest_ne = Cut.remainder_ne mem head pre a post size h room even

  -- A block in use is not the remainder.
  old_ne : (c : ℕ) → has c (pre ++ (a ∷ post)) ≡ true → c ≢ rest_of
  old_ne c i e =
      let t = Cut.no_block mem head pre a post size h room even in
      absurd (let f = ap (λ d. has d (pre ++ (a ∷ post))) e in cc)

  -- A block cut in two, and what the remainder then absorbs.
  cut-Reshaped :
      (mem' : ℕ → Block) (post' : List ℕ)
      → Merged rest_of cut_of (pre ++ (a ∷ rest_of ∷ post)) mem' (pre ++ (a ∷ post'))
      → Reshaped a mem (pre ++ (a ∷ post)) mem' (pre ++ (a ∷ post'))
  cut-Reshaped mem' post' m =
      let all = Cut.has_all mem head pre a post size h room even in
      let other = Cut.after_other mem head pre a post size h room even in
      let flag = λ (b : Block). b.is_free in
      let rest_free = ap flag (Cut.after_rest mem head pre a post size h room even) in
      record {
        has_same = ground (arith, has-append a pre (a ∷ post'));
        has_kept = λ c i u. elim (Bool-cases (c == a)) [
          | inl e ↦ rw (==→eq c a e) (ground (arith, has-append a pre (a ∷ post')))
          | inr e ↦
              m.has_kept c (rw (all c) (ground (arith, i)))
                (ap flag (other c (==→ne c a e) (old_ne c i)) ∙ u)
        ];
        same = λ c ne i u. m.others c (old_ne c i) ∙ other c ne (old_ne c i);
        back = λ c ne i u. elim (Bool-cases (c == rest_of)) [
          | inl e ↦
              let free = ap (is_free mem') (==→eq c rest_of e) ∙ m.free_same ∙ rest_free in
              absurd (let f = sym free ∙ u in ground (arith, f))
          | inr e ↦
              let nr = ==→ne c rest_of e in
              (
                ground (arith, e, all c, m.has_old c i),
                sym (ap flag (other c ne nr)) ∙ sym (ap flag (m.others c nr)) ∙ u,
              )
        ];
        clear = λ lo hi lt c.
            m.clear lo hi lt (Cut.after-Clear mem head pre a post size h room even lo hi lt c);
      }

coalesce_second :
    (fuel : ℕ) (mem : ℕ → Block) (head : ℕ) (pre : List ℕ) (a r : ℕ) (post : List ℕ)
    → IsBlocks mem head (pre ++ (a ∷ r ∷ post))
    → length post < fuel
    → (mem' : ℕ → Block) × (post' : List ℕ) × (heap_block_coalesce fuel r mem ≡ some mem')
      × IsBlocks mem' head (pre ++ (a ∷ r ∷ post'))
      × Merged r mem (pre ++ (a ∷ r ∷ post)) mem' (pre ++ (a ∷ r ∷ post'))
coalesce_second fuel mem head pre a r post h enough =
    let assoc = λ (l : List ℕ). append_assoc pre (a ∷ []) (r ∷ l) in
    let (mem', post', call, blocks, merged, fewer) =
      coalesce_lem fuel mem head (pre ++ (a ∷ [])) r post
        (subst (λ l. IsBlocks mem head l) (sym (assoc post)) h) enough in
    (
      mem',
      post',
      call,
      subst (λ l. IsBlocks mem' head l) (assoc post') blocks,
      subst (λ l. Merged r mem l mem' (pre ++ (a ∷ r ∷ post'))) (assoc post)
          (subst (λ l. Merged r mem ((pre ++ (a ∷ [])) ++ (r ∷ post)) mem' l) (assoc post') merged),
    )

heap_block_split-cut :
    (fuel a size : ℕ) (mem : ℕ → Block)
    → ltb (mem a).size (add64 (add64 size heap_header_size) heap_alignment) ≡ false
    → heap_block_split fuel a size mem
      ≡ heap_block_coalesce fuel (cut a size mem).0 (cut a size mem).1
unfolding heap_block_split
heap_block_split-cut fuel a size mem e = rw e refl

-- With fuel for the blocks behind `a`, `heap_block_split` comes to an end, and leaves `a` at least
-- `size` bytes.
pub split_lem :
    (fuel : ℕ) (mem : ℕ → Block) (head : ℕ) (pre : List ℕ) (a : ℕ) (post : List ℕ) (size : ℕ)
    → IsBlocks mem head (pre ++ (a ∷ post))
    → length post < fuel
    → size % 16 ≡ 0
    → size ≤ (mem a).size
    → (mem' : ℕ → Block) × (post' : List ℕ) × (heap_block_split fuel a size mem ≡ some mem')
      × IsBlocks mem' head (pre ++ (a ∷ post'))
      × Reshaped a mem (pre ++ (a ∷ post)) mem' (pre ++ (a ∷ post'))
      × (size ≤ (mem' a).size)
      × (is_free mem' a ≡ is_free mem a)
unfolding heap_block_split
split_lem fuel mem head pre a post size h enough even fits =
    let here : has a (pre ++ (a ∷ post)) ≡ true = ground (arith, has-append a pre (a ∷ post)) in
    let top = h.bounded a here in
    let at = h.aligned a here in
    let sum : ((size + heap_header_size) % u64_mod + heap_alignment) % u64_mod
        ≡ size + heap_header_size + 16 =
      omega (arith, top, at, fits) in
    elim (Bool-cases (ltb (mem a).size (size + heap_header_size + 16))) [
      | inl e ↦ (
        mem,
        post,
        rw (sum, e) refl,
        h,
        Merged-Reshaped a (Merged-refl a mem (pre ++ (a ∷ post)) here),
        fits,
        refl,
      )
      | inr e ↦
          let room = ltb→ge (mem a).size (size + heap_header_size + 16) e in
          let r = Cut.remainder mem head pre a post size h room even in
          let parts = Cut.cut-after mem head pre a post size h room even in
          let (mem', post', call, blocks, merged) =
            coalesce_second fuel (Cut.after mem head pre a post size h room even) head pre a r post
              (Cut.after-IsBlocks mem head pre a post size h room even) enough in
          let left =
            merged.others a (λ e. Cut.remainder_ne mem head pre a post size h room even (sym e))
            ∙ Cut.after_here mem head pre a post size h room even in
          (
            mem',
            r ∷ post',
            heap_block_split-cut fuel a size mem (rw (sum, e) refl)
                ∙ ap (λ p. heap_block_coalesce fuel p.0 p.1) parts
                ∙ call,
            blocks,
            cut-Reshaped mem head pre a post size h room even mem' (r ∷ post') merged,
            omega (arith, ap (λ b. b.size) left),
            ap (λ b. b.is_free) left,
          )
    ]
