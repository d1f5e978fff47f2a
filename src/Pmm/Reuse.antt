-- ===== src/Pmm/Reuse.antt =====
-- `pmm_alloc` after `pmm_free` (kernel/src/mm/pmm.c), and the count of the free pages.
use pros.Common.{
  ℕ, zero, suc, ◌+◌, ◌-◌, ◌*◌, ◌≤◌, ◌<◌, ◌≡◌, refl, ap, ◌∙◌, true, some, List, [], ◌∷◌, ◌++◌, arith,
  drop, Seg, u64_mod, sub64, add64, ne→==, length,
}
use pros.Pmm.{
  Pmm, page_size, search, unlink, pmm_free, pmm_alloc, count_nodes, pmm_get_free_page_count,
}
use pros.Pmm.FreeList.{down, pages, Holds, is_run, down-is_run}
use pros.Pmm.Search.{contiguous-is_run}
use pros.Pmm.Alloc.{unlink-Holds, unlink-phys}
use pros.Pmm.Free.{NotFree, pmm_free_lem}

drop-down : (k x : ℕ) (xs : List ℕ) → drop k (down x k ++ xs) ≡ xs
unfolding down
drop-down zero x xs = refl
drop-down (suc k) x xs = drop-down k (x - page_size) xs

search_top :
    (hhdm fuel k x : ℕ) (s : Pmm) (ys : List ℕ)
    → 0 < hhdm
    → is_run k x ys ≡ true
    → Holds hhdm s (x ∷ ys)
    → search (suc fuel) s.next k 0 s.free_list_head ≡ some (some (0, x))
unfolding search
search_top hhdm fuel k x s ys mapped run h =
    let links = h.chain in
    let open_list = ne→== x 0 links.1 in
    let same = contiguous-is_run hhdm mapped s.next k x ys h.in_map.0 h.in_map.1 links.2 in
    rw (links.0, open_list, same, run)

-- On a free list that begins with `k + 1` contiguous pages, `pmm_alloc` of as many takes these.
pmm_alloc_top :
    (hhdm fuel k phys : ℕ) (s : Pmm) (xs : List ℕ)
    → 0 < hhdm
    → suc k < u64_mod
    → Holds hhdm s (pages hhdm phys (suc k) ++ xs)
    → (s' : Pmm) × (pmm_alloc hhdm (suc fuel) (suc k) s ≡ some (phys, s')) × Holds hhdm s' xs
unfolding pmm_alloc down
pmm_alloc_top hhdm fuel k phys s xs mapped small h =
    let x = phys + k * page_size + hhdm in
    let ys = down (x - page_size) k ++ xs in
    let run : is_run k x ys ≡ true = down-is_run k x ys xs refl in
    let rounds : sub64 (suc k) 1 ≡ k = omega arith in
    let found = search_top hhdm fuel k x s ys mapped run h in
    let out = unlink hhdm k 0 x s in
    let place = unlink-phys hhdm k x ys 0 s run h.in_map in
    let at : out.0 ≡ phys = omega (arith, place.0) in
    let held : Holds hhdm out.1 xs =
      rw (drop-down k (x - page_size) xs) at (unlink-Holds hhdm k x [] ys s run h) in
    (out.1, rw (rounds, found, pmm_alloc, rounds) (ap (λ (p : ℕ). some (p, out.1)) at), held)

-- Pages that were just freed, in ascending order and none of them free before, are the ones that the
-- next allocation of as many returns; the free list is then what it was before.
pub pmm_alloc-pmm_free :
    (hhdm fuel k phys : ℕ) (s : Pmm) (xs : List ℕ)
    → 0 < hhdm
    → page_size ≤ phys
    → phys + suc k * page_size + hhdm < u64_mod
    → NotFree hhdm phys (suc k) xs
    → Holds hhdm s xs
    → (s' : Pmm) × (pmm_alloc hhdm (suc fuel) (suc k) (pmm_free hhdm phys (suc k) s)
        ≡ some (phys, s'))
      × Holds hhdm s' xs
pmm_alloc-pmm_free hhdm fuel k phys s xs mapped above below out h =
    pmm_alloc_top hhdm fuel k phys (pmm_free hhdm phys (suc k) s) xs mapped (omega arith)
      (pmm_free_lem hhdm (suc k) phys s xs above below out h).0

count_nodes_lem :
    (fuel : ℕ) (next : ℕ → ℕ) (node count : ℕ) (xs : List ℕ)
    → length xs < fuel
    → count + length xs < u64_mod
    → Seg next 0 node xs
    → count_nodes fuel next node count ≡ some (count + length xs)
unfolding count_nodes
count_nodes_lem zero next node count xs h small s = absurd (omega arith)
count_nodes_lem (suc fuel) next node count [] h small s = rw s (ap some (omega arith))
count_nodes_lem (suc fuel) next node count (x ∷ xs) h small s =
    let e = ne→== x 0 s.1 in
    let more : add64 count 1 ≡ count + 1 = omega arith in
    let rest = count_nodes_lem fuel next (next x) (count + 1) xs (omega arith) (omega arith) s.2 in
    rw (s.0, e, more, rest) (ap some (omega arith))

-- The count of free pages is the length of the free list, for any fuel above that.
pub pmm_get_free_page_count_lem :
    (hhdm fuel : ℕ) (s : Pmm) (xs : List ℕ)
    → Holds hhdm s xs
    → length xs < fuel
    → length xs < u64_mod
    → pmm_get_free_page_count fuel s ≡ some (length xs)
unfolding pmm_get_free_page_count
pmm_get_free_page_count_lem hhdm fuel s xs h enough small =
    count_nodes_lem fuel s.next s.free_list_head 0 xs enough (omega arith) h.chain
    ∙ ap some (omega arith)
