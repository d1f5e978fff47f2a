-- ===== src/Heap/Blocks.antt =====
-- The block list of kernel/src/mm/heap.c: blocks that do not overlap, and what absorbing does to them.
use pros.Common.{
  ℕ, ◌+◌, ◌%◌, ◌≤◌, ◌<◌, ◌≡◌, ◌≢◌, ◌⊎◌, refl, ap, ◌∙◌, inl, inr, Bool, true, false, ◌||◌, List, [],
  ◌∷◌, ◌++◌, arith, update, update_eq, update_ne, Seg, Avoids, Distinct, has, u64_mod, ◌==◌,
  Bool-cases, ==→eq, ==→ne,
}
use pros.Heap.{Block, heap_header_size}

abbrev pub next_of : (ℕ → Block) → ℕ → ℕ
next_of mem a = (mem a).next

-- The address behind a block.
abbrev pub end_of : (ℕ → Block) → ℕ → ℕ
end_of mem a = a + heap_header_size + (mem a).size

abbrev pub is_free : (ℕ → Block) → ℕ → Bool
is_free mem a = (mem a).is_free

-- The blocks of a heap, in the order of the list.
pub record IsBlocks (mem : ℕ → Block) (head : ℕ) (bs : List ℕ) : Type 0 where
  pub chain : Seg (next_of mem) 0 head bs
  pub distinct : Distinct bs
  pub bounded : (a : ℕ) → has a bs ≡ true → (0 < a) × (end_of mem a < u64_mod)
  pub aligned : (a : ℕ) → has a bs ≡ true → (a % 16 ≡ 0) × ((mem a).size % 16 ≡ 0)
  pub apart :
      (a b : ℕ)
      → has a bs ≡ true
      → has b bs ≡ true
      → a ≢ b
      → (end_of mem a ≤ b) ⊎ (end_of mem b ≤ a)

-- No block overlaps the addresses from `lo` up to `hi`.
abbrev pub Clear : ℕ → ℕ → (ℕ → Block) → List ℕ → Type 0
Clear lo hi mem bs = (a : ℕ) → has a bs ≡ true → (hi ≤ a) ⊎ (end_of mem a ≤ lo)

pub has-append : (a : ℕ) (xs ys : List ℕ) → has a (xs ++ ys) ≡ (has a xs || has a ys)
has-append a [] ys = refl
has-append a (x ∷ xs) ys = ground (arith, has-append a xs ys)

pub has-Avoids : (a : ℕ) (xs : List ℕ) → has a xs ≡ false → Avoids a xs
has-Avoids a [] h = tt
has-Avoids a (x ∷ xs) h =
    ((λ e. absurd (ground (arith, h, e))), has-Avoids a xs (ground (arith, h)))

-- A write behind a prefix of the list leads on to another rest.
pub Seg-replace :
    (next : ℕ → ℕ) (stop p a v : ℕ) (pre post post' : List ℕ)
    → Seg next stop p (pre ++ (a ∷ post))
    → Avoids a pre
    → Seg (update next a v) stop v post'
    → Seg (update next a v) stop p (pre ++ (a ∷ post'))
Seg-replace next stop p a v [] post post' s out t = (s.0, s.1, rw (update_eq next a v) t)
Seg-replace next stop p a v (x ∷ pre) post post' s out t = (
  s.0,
  s.1,
  rw (update_ne next a v x out.0) (Seg-replace next stop (next x) a v pre post post' s.2 out.1 t),
)

pub Seg-suffix :
    (next : ℕ → ℕ) (stop p a : ℕ) (pre post : List ℕ)
    → Seg next stop p (pre ++ (a ∷ post))
    → Seg next stop a (a ∷ post)
Seg-suffix next stop p a [] post s = (refl, s.1, s.2)
Seg-suffix next stop p a (x ∷ pre) post s = Seg-suffix next stop (next x) a pre post s.2

-- The links after a write of a whole header.
pub next_of-update :
    (mem : ℕ → Block) (a c : ℕ) (b : Block)
    → update (next_of mem) a b.next c ≡ next_of (update mem a b) c
next_of-update mem a c b = ground arith

-- Changing the blocks of a heap: nothing that is in use is touched, and no address is claimed that
-- no block had.
pub record Merged (a : ℕ) (mem : ℕ → Block) (bs : List ℕ) (mem' : ℕ → Block) (bs' : List ℕ)
    : Type 0 where
  pub has_same : has a bs' ≡ true
  pub has_kept : (c : ℕ) → has c bs ≡ true → is_free mem c ≡ false → has c bs' ≡ true
  pub has_old : (c : ℕ) → has c bs' ≡ true → has c bs ≡ true
  pub others : (c : ℕ) → c ≢ a → mem' c ≡ mem c
  pub free_same : is_free mem' a ≡ is_free mem a
  pub grown : (mem a).size ≤ (mem' a).size
  pub clear : (lo hi : ℕ) → lo < hi → Clear lo hi mem bs → Clear lo hi mem' bs'

pub Merged-refl : (a : ℕ) (mem : ℕ → Block) (bs : List ℕ) → has a bs ≡ true → Merged a mem bs mem bs
Merged-refl a mem bs h = record {
  has_same = h;
  has_kept = λ c i u. i;
  has_old = λ c i. i;
  others = λ c ne. refl;
  free_same = refl;
  grown = omega arith;
  clear = λ lo hi lt c. c;
}

pub Merged-trans :
    (a : ℕ) {mem mem' mem'' : ℕ → Block} {bs bs' bs'' : List ℕ}
    → Merged a mem bs mem' bs'
    → Merged a mem' bs' mem'' bs''
    → Merged a mem bs mem'' bs''
Merged-trans a m n = record {
  has_same = n.has_same;
  has_kept = λ c i u. elim (Bool-cases (c == a)) [
    | inl e ↦ rw (==→eq c a e) n.has_same
    | inr e ↦ n.has_kept c (m.has_kept c i u) (ap (λ b. b.is_free) (m.others c (==→ne c a e)) ∙ u)
  ];
  has_old = λ c i. m.has_old c (n.has_old c i);
  others = λ c ne. n.others c ne ∙ m.others c ne;
  free_same = n.free_same ∙ m.free_same;
  grown = omega (arith, m.grown, n.grown);
  clear = λ lo hi lt c. n.clear lo hi lt (m.clear lo hi lt c);
}
