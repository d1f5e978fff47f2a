-- ===== src/Pmm/Alloc.antt =====
-- `pmm_alloc` of kernel/src/mm/pmm.c takes a contiguous run of free pages out of the free list.
use pros.Common.{
  ℕ, zero, suc, ◌+◌, ◌-◌, ◌*◌, ◌≤◌, ◌<◌, ◌≡◌, ap, sym, ◌∙◌, ◌≢◌, ◌⊎◌, true, some, List, [], ◌∷◌,
  ◌++◌, arith, inl, inr, drop, All, Distinct, Avoids, Seg, Seg-update, Seg-Avoids, u64_mod, sub64,
  ne→==, length, update, update_eq, update_ne, All-drop, Distinct-drop,
}
use pros.Pmm.{Pmm, page_size, follow, unlink, pmm_alloc, pmm_virt_to_phys}
use pros.Pmm.FreeList.{pages, IsPage, Holds, is_run, is_run-down}
use pros.Pmm.Search.{last_or, NoRun, Searched, search-Searched}

-- Following `next` over a run leads to the list behind it.
Seg-follow :
    (next : ℕ → ℕ) (k x : ℕ) (ys : List ℕ)
    → is_run k x ys ≡ true
    → Seg next 0 (next x) ys
    → Seg next 0 (follow next k (next x)) (drop k ys)
unfolding follow is_run
Seg-follow next zero x ys run s = s
Seg-follow next (suc k) x [] run s = cc
Seg-follow next (suc k) x (y ∷ ys) run s = rw s.0 (Seg-follow next k y ys (ground arith) s.2)

last_or-ne : (pre : List ℕ) (a z : ℕ) → z ≢ a → Avoids z pre → last_or a pre ≢ z
last_or-ne [] a z h out = λ e. h (sym e)
last_or-ne (x ∷ pre) a z h out = last_or-ne pre x z (λ e. out.0 (sym e)) out.1

Avoids-prefix : (a : ℕ) (pre ys : List ℕ) → Avoids a (pre ++ ys) → Avoids a pre
Avoids-prefix a [] ys h = tt
Avoids-prefix a (x ∷ pre) ys h = (h.0, Avoids-prefix a pre ys h.1)

-- Linking the last node before a run to the node behind it cuts the run out.
Seg-cut :
    (next : ℕ → ℕ) (k p end x b : ℕ) (pre ys : List ℕ)
    → Seg next 0 p (b ∷ (pre ++ (x ∷ ys)))
    → Distinct (b ∷ (pre ++ (x ∷ ys)))
    → Seg next 0 end (drop k ys)
    → Seg (update next (last_or b pre) end) 0 p (b ∷ (pre ++ drop k ys))
Seg-cut next k p end x b [] ys s d t = (
  s.0,
  s.1,
  rw (update_eq next b end)
      (Seg-update next 0 end b end (drop k ys) (All-drop (λ y. y ≢ b) k ys d.0.1) t),
)
Seg-cut next k p end x b (c ∷ pre) ys s d t =
    let apart = last_or-ne pre c b (λ e. d.0.0 (sym e)) (Avoids-prefix b pre (x ∷ ys) d.0.1) in
    let rest = Seg-cut next k (next b) end x c pre ys s.2 d.1 t in
    (s.0, s.1, rw (update_ne next (last_or c pre) end b (λ e. apart (sym e))) rest)

All-cut {ℓ κ} :
    {A : Type ℓ} (P : A → Type κ) (k : ℕ) (x : A) (pre ys : List A)
    → All P (pre ++ (x ∷ ys))
    → All P (pre ++ drop k ys)
All-cut P k x [] ys h = All-drop P k ys h.1
All-cut P k x (c ∷ pre) ys h = (h.0, All-cut P k x pre ys h.1)

Distinct-cut :
    (k x : ℕ) (pre ys : List ℕ) → Distinct (pre ++ (x ∷ ys)) → Distinct (pre ++ drop k ys)
Distinct-cut k x [] ys h = Distinct-drop k ys h.1
Distinct-cut k x (c ∷ pre) ys h = (All-cut (λ y. y ≢ c) k x pre ys h.0, Distinct-cut k x pre ys h.1)

All-suffix {ℓ κ} : {A : Type ℓ} (P : A → Type κ) (pre ys : List A) → All P (pre ++ ys) → All P ys
All-suffix P [] ys h = h
All-suffix P (c ∷ pre) ys h = All-suffix P pre ys h.1

Seg-suffix :
    (next : ℕ → ℕ) (p : ℕ) (pre ys : List ℕ) → Seg next 0 p (pre ++ ys) → (q : ℕ) × Seg next 0 q ys
Seg-suffix next p [] ys s = (p, s)
Seg-suffix next p (c ∷ pre) ys s = Seg-suffix next (next c) pre ys s.2

module _ (hhdm : ℕ) where
  run_above :
      (k x : ℕ) (ys : List ℕ)
      → is_run k x ys ≡ true
      → All (IsPage hhdm) (x ∷ ys)
      → hhdm + page_size + k * page_size ≤ x
  unfolding is_run
  run_above zero x ys run ps = omega arith
  run_above (suc k) x [] run ps = cc
  run_above (suc k) x (y ∷ ys) run ps =
      let e : x - page_size ≡ y = ground arith in
      omega (arith, run_above k y ys (ground arith) ps.1)

  -- The list after `pmm_alloc` has taken out the run at `x`.
  pub unlink-Holds :
      (k x : ℕ) (pre ys : List ℕ) (s : Pmm)
      → is_run k x ys ≡ true
      → Holds hhdm s (pre ++ (x ∷ ys))
      → Holds hhdm (unlink hhdm k (last_or 0 pre) x s).1 (pre ++ drop k ys)
  unfolding unlink
  unlink-Holds k x [] ys s run h = record {
    chain = Seg-follow s.next k x ys run h.chain.2;
    in_map = All-drop (IsPage hhdm) k ys h.in_map.1;
    distinct = Distinct-drop k ys h.distinct.1;
  }
  unlink-Holds k x (b ∷ pre) ys s run h =
      let (q, t) = Seg-suffix s.next s.free_list_head (b ∷ pre) (x ∷ ys) h.chain in
      let links = Seg-Avoids s.next 0 s.free_list_head (b ∷ (pre ++ (x ∷ ys))) h.chain in
      let apart =
        last_or-ne pre b 0 (λ e. links.0 (sym e)) (Avoids-prefix 0 pre (x ∷ ys) links.1) in
      let e = ne→== (last_or b pre) 0 apart in
      rw e (record {
        chain =
            Seg-cut s.next k s.free_list_head (follow s.next k (s.next x)) x b pre ys h.chain
              h.distinct (Seg-follow s.next k x ys run t.2);
        in_map = All-cut (IsPage hhdm) k x (b ∷ pre) ys h.in_map;
        distinct = Distinct-cut k x (b ∷ pre) ys h.distinct;
      })

  pub unlink-phys :
      (k x : ℕ) (ys : List ℕ) (prev : ℕ) (s : Pmm)
      → is_run k x ys ≡ true
      → All (IsPage hhdm) (x ∷ ys)
      → ((unlink hhdm k prev x s).0 + k * page_size + hhdm ≡ x) × (0 < (unlink hhdm k prev x s).0)
  unfolding unlink pmm_virt_to_phys
  unlink-phys k x ys prev s run ps = omega (arith, run_above k x ys run ps)

-- `pmm_alloc` of `k + 1` pages on a free list that holds the pages `xs`, with fuel for its walk: it
-- returns 0 and changes nothing, and then no `k + 1` contiguous pages stand together in the list;
-- or it returns the lowest of `k + 1` contiguous pages that stand together in the list, and takes
-- exactly those out.
pub pmm_alloc_lem :
    (hhdm k fuel : ℕ) (s : Pmm) (xs : List ℕ)
    → 0 < hhdm
    → suc k < u64_mod
    → Holds hhdm s xs
    → length xs < fuel
    → ((pmm_alloc hhdm fuel (suc k) s ≡ some (0, s)) × NoRun k xs)
      ⊎ ((phys : ℕ) × (pre : List ℕ) × (post : List ℕ) × (s' : Pmm) × (pmm_alloc hhdm fuel (suc k) s
            ≡ some (phys, s'))
          × (0 < phys)
          × (xs ≡ pre ++ (pages hhdm phys (suc k) ++ post))
          × Holds hhdm s' (pre ++ post))
unfolding pmm_alloc Searched
pmm_alloc_lem hhdm k fuel s xs mapped small h enough =
    let rounds : sub64 (suc k) 1 ≡ k = omega arith in
    elim (search-Searched hhdm mapped s.next fuel k 0 s.free_list_head xs enough h.in_map h.chain) [
      | inl (miss, nowhere) ↦ inl (rw (rounds, miss, pmm_alloc), nowhere)
      | inr (pre, x, ys, split, found, run) ↦
          let held : Holds hhdm s (pre ++ (x ∷ ys)) = rw (← split) h in
          let out = unlink hhdm k (last_or 0 pre) x s in
          let place =
            unlink-phys hhdm k x ys (last_or 0 pre) s run
              (All-suffix (IsPage hhdm) pre (x ∷ ys) held.in_map) in
          inr (
            out.0,
            pre,
            drop k ys,
            out.1,
            rw (rounds, found, pmm_alloc, rounds),
            place.1,
            rw place.0 (split ∙ ap (λ t. pre ++ t) (is_run-down k x ys run)),
            unlink-Holds hhdm k x pre ys s run held,
          )
    ]
