-- ===== src/Pmm/Search.antt =====
-- The search of `pmm_alloc` (kernel/src/mm/pmm.c) on the list of free pages: it finds a contiguous
-- run if and only if there is one.
use pros.Common.{
  ℕ, zero, suc, ◌-◌, ◌<◌, ◌≡◌, refl, ap, ◌≢◌, ◌⊎◌, true, false, none, some, List, [], ◌∷◌, ◌++◌,
  arith, inl, inr, All, Seg, sub64, ◌==◌, Bool-cases, ne→==, length,
}
use pros.Pmm.{page_size, contiguous, search}
use pros.Pmm.FreeList.{down, IsPage, is_run, down-is_run}

-- The last of `xs`, or `a` if there is none.
abbrev pub last_or : ℕ → List ℕ → ℕ
last_or a [] = a
last_or a (x ∷ xs) = last_or x xs

-- Nowhere in the list do `k + 1` contiguous pages stand together.
abbrev pub NoRun : ℕ → List ℕ → Type 0
NoRun k xs = (pre post : List ℕ) (x : ℕ) → xs ≢ pre ++ (down x (suc k) ++ post)

NoRun-nil : (k : ℕ) → NoRun k []
unfolding down
NoRun-nil k [] post x e = cc
NoRun-nil k (p ∷ pre) post x e = cc

NoRun-cons : (k x : ℕ) (xs : List ℕ) → is_run k x xs ≡ false → NoRun k xs → NoRun k (x ∷ xs)
unfolding down
NoRun-cons k x xs here rest [] post y e =
    let same : x ≡ y = ground arith in let run = down-is_run k x xs post (rw (← same) at e) in cc
NoRun-cons k x xs here rest (p ∷ pre) post y e = rest pre post y (ground arith)

module _ (hhdm : ℕ) (mapped : 0 < hhdm) (next : ℕ → ℕ) where
  pub contiguous-is_run :
      (k x : ℕ) (ys : List ℕ)
      → IsPage hhdm x
      → All (IsPage hhdm) ys
      → Seg next 0 (next x) ys
      → contiguous next k x ≡ is_run k x ys
  unfolding contiguous is_run
  contiguous-is_run zero x ys px ps s = refl
  contiguous-is_run (suc k) x [] px ps s =
      let e : (sub64 x page_size == next x) ≡ false = ne→== _ _ (omega arith) in rw (e, contiguous)
  contiguous-is_run (suc k) x (y ∷ ys) px ps s =
      let e : sub64 x page_size ≡ x - page_size = omega arith in
      let ih = contiguous-is_run k y ys ps.0 ps.1 s.2 in
      rw (e, s.0, contiguous)
        (elim (Bool-cases (x - page_size == y)) [
          | inl step ↦ rw (step, contiguous, s.0) ih
          | inr gap ↦ rw (gap, contiguous)
        ])

  -- What the search comes to on the list from `start` on, behind the node `prev`.
  unfoldable pub Searched : ℕ → ℕ → ℕ → ℕ → List ℕ → Type 0
  Searched fuel k prev start xs =
      ((search fuel next k prev start ≡ some none) × NoRun k xs)
      ⊎ ((pre : List ℕ) × (x : ℕ) × (ys : List ℕ) × (xs ≡ pre ++ (x ∷ ys))
          × (search fuel next k prev start ≡ some (some (last_or prev pre, x)))
          × (is_run k x ys ≡ true))

  pub search-Searched :
      (fuel k prev start : ℕ) (xs : List ℕ)
      → length xs < fuel
      → All (IsPage hhdm) xs
      → Seg next 0 start xs
      → Searched fuel k prev start xs
  unfolding search Searched
  search-Searched zero k prev start xs h ps s = absurd (omega arith)
  search-Searched (suc fuel) k prev start [] h ps s = inl (rw s refl, NoRun-nil k)
  search-Searched (suc fuel) k prev start (x ∷ ys) h ps s =
      let open_list : (start == 0) ≡ false = ne→== start 0 (omega arith) in
      let same = contiguous-is_run k x ys ps.0 ps.1 s.2 in
      elim (Bool-cases (is_run k x ys)) [
        | inl run ↦ inr ([], x, ys, refl, rw (open_list, s.0, same, run), run)
        | inr gap ↦
            elim (search-Searched fuel k start (next start) ys (omega arith) ps.1 (rw s.0 s.2)) [
              | inl (miss, nowhere) ↦
                  inl
                    (rw (open_list, s.0, same, gap) (rw s.0 at miss), NoRun-cons k x ys gap nowhere)
              | inr (pre, y, zs, split, found, run) ↦ inr (
                x ∷ pre,
                y,
                zs,
                ap (λ t. x ∷ t) split,
                rw (open_list, s.0, same, gap) (rw s.0 at found),
                run,
              )
            ]
      ]
