-- ===== src/Pmm/Free.antt =====
-- `pmm_free` of kernel/src/mm/pmm.c puts pages in front of the free list, and `pmm_alloc` hands the
-- same pages out again.
use pros.Common.{
  ℕ, zero, suc, ◌+◌, ◌-◌, ◌*◌, ◌≤◌, ◌<◌, ◌≡◌, refl, ap, ◌∙◌, ◌⊎◌, false, List, [], ◌∷◌, ◌++◌, arith,
  inl, All, Avoids, Seg-update, u64_mod, add64, ◌==◌, ne→==, update, update_eq,
}
use pros.Pmm.{Pmm, page_size, free_loop, pmm_free, pmm_phys_to_virt}
use pros.Pmm.FreeList.{down, pages, Holds}

down-snoc :
    (n x y : ℕ) (xs : List ℕ) → y + n * page_size ≡ x → down x n ++ (y ∷ xs) ≡ down x (suc n) ++ xs
unfolding down
down-snoc zero x y xs e = ap (λ t. t ∷ xs) (omega arith)
down-snoc (suc n) x y xs e = ap (λ t. x ∷ t) (down-snoc n (x - page_size) y xs (omega arith))

pages-next :
    (hhdm n phys : ℕ) → pages hhdm (phys + page_size) n ≡ down (phys + n * page_size + hhdm) n
unfolding down
pages-next hhdm zero phys = refl
pages-next hhdm (suc n) phys = ap (λ t. down t (suc n)) (omega arith)

-- None of the `n` pages from `phys` on is in the list.
abbrev pub NotFree : ℕ → ℕ → ℕ → List ℕ → Type 0
NotFree hhdm phys n xs = All (λ x. (x < phys + hhdm) ⊎ (phys + n * page_size + hhdm ≤ x)) xs

module _ (hhdm : ℕ) where
  NotFree-Avoids :
      (phys n : ℕ) (xs : List ℕ) → NotFree hhdm phys (suc n) xs → Avoids (phys + hhdm) xs
  NotFree-Avoids phys n [] h = tt
  NotFree-Avoids phys n (x ∷ xs) h = (ground (arith, h.0), NotFree-Avoids phys n xs h.1)

  NotFree-next :
      (phys n : ℕ) (xs : List ℕ)
      → NotFree hhdm phys (suc n) xs
      → NotFree hhdm (phys + page_size) n xs
  NotFree-next phys n [] h = tt
  NotFree-next phys n (x ∷ xs) h = (ground (arith, h.0), NotFree-next phys n xs h.1)

  push_page :
      (phys : ℕ) (s : Pmm) (xs : List ℕ)
      → page_size ≤ phys
      → phys + hhdm < u64_mod
      → Avoids (phys + hhdm) xs
      → Holds hhdm s xs
      → Holds hhdm
          (record s {
            next = update s.next (phys + hhdm) s.free_list_head;
            free_list_head = phys + hhdm;
          })
          ((phys + hhdm) ∷ xs)
  push_page phys s xs above below out h = record {
    chain = (
      refl,
      omega arith,
      rw (update_eq s.next (phys + hhdm) s.free_list_head)
          (Seg-update s.next 0 s.free_list_head (phys + hhdm) s.free_list_head xs out h.chain),
    );
    in_map = (omega arith, h.in_map);
    distinct = (out, h.distinct);
  }

  free_loop-Holds :
      (n phys : ℕ) (s : Pmm) (xs : List ℕ)
      → page_size ≤ phys
      → phys + n * page_size + hhdm < u64_mod
      → NotFree hhdm phys n xs
      → Holds hhdm s xs
      → Holds hhdm (free_loop hhdm n phys s) (pages hhdm phys n ++ xs)
  unfolding free_loop pmm_phys_to_virt
  free_loop-Holds zero phys s xs above below out h = h
  free_loop-Holds (suc n) phys s xs above below out h =
      let node : add64 phys hhdm ≡ phys + hhdm = omega arith in
      let after : add64 phys page_size ≡ phys + page_size = omega arith in
      let pushed = push_page phys s xs above (omega arith) (NotFree-Avoids phys n xs out) h in
      let rest =
        free_loop-Holds n (phys + page_size) _ ((phys + hhdm) ∷ xs) (omega arith) (omega arith)
          (inl (omega arith), NotFree-next phys n xs out) pushed in
      let same : pages hhdm (phys + page_size) n ++ ((phys + hhdm) ∷ xs)
          ≡ down (phys + n * page_size + hhdm) (suc n) ++ xs =
        ap (λ t. t ++ ((phys + hhdm) ∷ xs)) (pages-next hhdm n phys)
        ∙ down-snoc n (phys + n * page_size + hhdm) (phys + hhdm) xs (omega arith) in
      rw (node, after, ← same) rest

-- `pmm_free` of `n` pages from the physical address `phys` on, none of which is free already, puts
-- them in front of the free list; of the page at address 0 it frees nothing.
pub pmm_free_lem :
    (hhdm n phys : ℕ) (s : Pmm) (xs : List ℕ)
    → page_size ≤ phys
    → phys + n * page_size + hhdm < u64_mod
    → NotFree hhdm phys n xs
    → Holds hhdm s xs
    → Holds hhdm (pmm_free hhdm phys n s) (pages hhdm phys n ++ xs) × (pmm_free hhdm 0 n s ≡ s)
unfolding pmm_free
pmm_free_lem hhdm n phys s xs above below out h =
    let e : (phys == 0) ≡ false = ne→== phys 0 (omega arith) in
    (rw e (free_loop-Holds hhdm n phys s xs above below out h), refl)
