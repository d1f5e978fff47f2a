-- ===== src/Pmm/FreeList.antt =====
-- The free list of kernel/src/mm/pmm.c as a list of virtual page addresses, and what a contiguous
-- run of it is.
use pros.Common.{
  ℕ, zero, suc, ◌+◌, ◌-◌, ◌*◌, ◌≤◌, ◌<◌, ◌≡◌, refl, ap, Bool, true, false, ◌&&◌, List, [], ◌∷◌,
  ◌++◌, arith, inl, inr, drop, All, Distinct, Seg, u64_mod, ◌==◌, Bool-cases, ==→eq,
}
use pros.Pmm.{Pmm, page_size}

-- `n` pages from `top` downwards: pages that were freed in ascending order.
unfoldable pub down : ℕ → ℕ → List ℕ
down top zero = []
down top (suc n) = top ∷ down (top - page_size) n

-- The pages from the physical address `phys` on, as the free list holds them.
abbrev pub pages : ℕ → ℕ → ℕ → List ℕ
pages hhdm phys zero = []
pages hhdm phys (suc n) = down (phys + n * page_size + hhdm) (suc n)

-- An address that a page other than the one at physical address 0 can have in the direct map.
abbrev pub IsPage : ℕ → ℕ → Type 0
IsPage hhdm x = (hhdm + page_size ≤ x) × (x < u64_mod)

-- The list that a state's links lead through; its pages are pages of the direct map, none twice.
pub record Holds (hhdm : ℕ) (s : Pmm) (xs : List ℕ) : Type 0 where
  pub chain : Seg s.next 0 s.free_list_head xs
  pub in_map : All (IsPage hhdm) xs
  pub distinct : Distinct xs

-- Do the next `k` pages of the list step down from `x`, a page each?
unfoldable pub is_run : ℕ → ℕ → List ℕ → Bool
is_run zero x xs = true
is_run (suc k) x [] = false
is_run (suc k) x (y ∷ ys) = (x - page_size == y) && is_run k y ys

pub is_run-down :
    (k x : ℕ) (xs : List ℕ) → is_run k x xs ≡ true → x ∷ xs ≡ down x (suc k) ++ drop k xs
unfolding is_run down
is_run-down zero x xs h = refl
is_run-down (suc k) x [] h = cc
is_run-down (suc k) x (y ∷ ys) h = elim (Bool-cases (x - page_size == y)) [
  | inl e ↦
      let e' = ==→eq (x - page_size) y e in rw e' (ap (λ t. x ∷ t) (is_run-down k y ys (rw e at h)))
  | inr ne ↦ absurd (ground arith)
]

pub down-is_run :
    (k x : ℕ) (xs post : List ℕ) → x ∷ xs ≡ down x (suc k) ++ post → is_run k x xs ≡ true
unfolding is_run down
down-is_run zero x xs post h = refl
down-is_run (suc k) x [] post h = ground arith
down-is_run (suc k) x (y ∷ ys) post h =
    let e : x - page_size ≡ y = ground arith in
    let t : y ∷ ys ≡ down (x - page_size) (suc k) ++ post = ground arith in
    let ih = down-is_run k y ys post (rw e at t) in ground (arith, ih)
