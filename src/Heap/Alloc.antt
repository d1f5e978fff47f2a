-- ===== src/Heap/Alloc.antt =====
-- `kmalloc` of kernel/src/mm/heap.c gives out memory that nobody has.
use mathlib.Core.Path.{subst}
use mathlib.Core.Option.{some-injective}
use pros.Common.{
  ℕ, ◌+◌, ◌-◌, ◌*◌, ◌/◌, ◌%◌, ◌≤◌, ◌<◌, ◌≡◌, ◌≢◌, ◌⊎◌, refl, ap, sym, ◌∙◌, inl, inr, true, false,
  Option, some, List, [], ◌∷◌, ◌++◌, arith, has, u64_mod, ltb, ◌==◌, if◌then◌else◌, length,
  length-append, Bool-cases, ltb→ge, ltb→lt, lt→ltb, ge→ltb, ==→eq, ne→==,
}
use pros.Heap.Blocks.{end_of, is_free, has-append}
use pros.Pmm.{page_size}
use pros.Pmm.Search.{NoRun}
use pros.Heap.{
  Block, Heap, heap_header_size, heap_alignment, size_max, heap_align_up, search_free, take_block,
  use_block, new_block, find_block, kmalloc,
}
use pros.Heap.Mark.{search_free_lem}
use pros.Heap.Invariant.{IsHeap}
use pros.Heap.NewBlock.{Extended, more_pages, new_block_lem}
use pros.Heap.Take.{Allocated, take_block_lem}

-- The bytes that a block gets for `size` bytes: a multiple of the alignment, and not 0.
abbrev pub rounded : ℕ → ℕ
rounded size = if size == 0 then heap_alignment else (size + 15) / 16 * 16

abbrev pub largest : ℕ
largest = size_max - heap_header_size - page_size - heap_alignment

-- Why there is no block: the size is beyond every block, or no free block is large enough and
-- the free list has no run of pages for a new one.
abbrev pub NoMemory : ℕ → Heap → List ℕ → List ℕ → Type 0
NoMemory size h bs frees =
    (largest < size)
    ⊎ (((c : ℕ) → has c bs ≡ true → is_free h.block c ≡ true → (h.block c).size < rounded size)
        × NoRun (more_pages (rounded size)) frees)

find_block-search :
    (hhdm fuel size a : ℕ) (h : Heap)
    → search_free fuel h.block h.heap_block_list size ≡ some a
    → a ≢ 0
    → find_block hhdm fuel size h ≡ some (a, h)
unfolding find_block
find_block-search hhdm fuel size a h e ne = rw (find_block, e, ne→== a 0 ne) refl

find_block-new_block :
    (hhdm fuel size : ℕ) (h : Heap)
    → search_free fuel h.block h.heap_block_list size ≡ some 0
    → find_block hhdm fuel size h ≡ new_block hhdm fuel size h
unfolding find_block
find_block-new_block hhdm fuel size h e = rw (find_block, e) refl

kmalloc-large :
    (hhdm fuel size : ℕ) (h : Heap) → largest < size → kmalloc hhdm fuel size h ≡ some (0, h)
unfolding kmalloc
kmalloc-large hhdm fuel size h large = rw (lt→ltb largest size large) refl

kmalloc-use_block :
    (hhdm fuel size : ℕ) (h : Heap)
    → size ≤ largest
    → kmalloc hhdm fuel size h
      ≡ use_block fuel (rounded size) (find_block hhdm fuel (rounded size) h)
unfolding kmalloc
kmalloc-use_block hhdm fuel size h small =
    let want : (if heap_align_up size heap_alignment == 0
          then heap_alignment
          else heap_align_up size heap_alignment)
        ≡ rounded size =
      unfold heap_align_up in ground arith in
    rw (ge→ltb largest size small) (ap (λ w. use_block fuel w (find_block hhdm fuel w h)) want)

use_block-take_block :
    (fuel size a : ℕ) (h : Heap)
    → a ≢ 0
    → use_block fuel size (some (a, h)) ≡ take_block fuel a size h
unfolding use_block
use_block-take_block fuel size a h ne = rw (ne→== a 0 ne) refl

use_block-zero : (fuel size : ℕ) (h : Heap) → use_block fuel size (some (0, h)) ≡ some (0, h)
unfolding use_block
use_block-zero fuel size h = refl

rounded_lem :
    (size : ℕ)
    → size ≤ largest
    → (rounded size % 16 ≡ 0)
      × (size ≤ rounded size)
      × (rounded size + heap_header_size + page_size ≤ u64_mod)
rounded_lem size small = ground arith

-- A result of `kmalloc`: the address behind the header of a block that is allocated now.
abbrev pub Gives : ℕ → ℕ → Heap → List ℕ → Option (ℕ × Heap) → Type 0
Gives hhdm size h bs result =
    (a : ℕ) × (h' : Heap) × (bs' frees' : List ℕ) × (result ≡ some (a + heap_header_size, h'))
    × ((a + heap_header_size) % 16 ≡ 0)
    × IsHeap hhdm h' bs' frees'
    × Allocated a size h bs h' bs'

Allocated-le :
    (a size more : ℕ) (h : Heap) (bs : List ℕ) (h' : Heap) (bs' : List ℕ)
    → size ≤ more
    → Allocated a more h bs h' bs'
    → Allocated a size h bs h' bs'
Allocated-le a size more h bs h' bs' le al = record {
  was_free = al.was_free;
  has_block = al.has_block;
  in_use = al.in_use;
  fits = omega (arith, le, al.fits);
  others = al.others;
}

-- The block is in the list already.
take-Gives :
    (hhdm fuel a size : ℕ) (h : Heap) (pre post frees : List ℕ)
    → IsHeap hhdm h (pre ++ (a ∷ post)) frees
    → length post < fuel
    → size ≤ largest
    → rounded size ≤ (h.block a).size
    → is_free h.block a ≡ true
    → Gives hhdm size h (pre ++ (a ∷ post)) (use_block fuel (rounded size) (some (a, h)))
take-Gives hhdm fuel a size h pre post frees heap enough small room free =
    let here : has a (pre ++ (a ∷ post)) ≡ true = ground (arith, has-append a pre (a ∷ post)) in
    let (even, over, fits) = rounded_lem size small in
    let set = (heap.blocks.bounded a here).0 in
    let at = heap.blocks.aligned a here in
    let (h', bs', call, heap', taken) =
      take_block_lem hhdm fuel a (rounded size) h pre post frees heap enough even room free in
    (
      a,
      h',
      bs',
      frees,
      use_block-take_block fuel (rounded size) a h (omega arith) ∙ call,
      omega (arith, at),
      heap',
      Allocated-le a size (rounded size) h (pre ++ (a ∷ post)) h' bs' over taken,
    )

-- The block is new.
new-Gives :
    (hhdm size a : ℕ) (h h1 : Heap) (bs frees' : List ℕ) (result : Option (ℕ × Heap))
    → Extended hhdm h bs (rounded size) a h1 frees'
    → Gives hhdm size h1 (a ∷ bs) result
    → Gives hhdm size h bs result
new-Gives hhdm size a h h1 bs frees' result ext (b, h', bs', frees'', call, even, heap', al) =
    let flag = λ (x : Block). x.is_free in
    let more : (c : ℕ) → has c bs ≡ true → has c (a ∷ bs) ≡ true = λ c i. ground (arith, i) in
    (
      b,
      h',
      bs',
      frees'',
      call,
      even,
      heap',
      record {
        was_free = λ i. ap flag (sym (ext.others b i).1) ∙ al.was_free (more b i);
        has_block = al.has_block;
        in_use = al.in_use;
        fits = al.fits;
        others = record {
          kept = λ c ne i u.
              let same = (ext.others c i).1 in
              let (i', same') = al.others.kept c ne (more c i) (ap flag same ∙ u) in
              (i', same' ∙ same);
          back = λ c ne i u.
              let (i', u') = al.others.back c ne i u in
              elim (Bool-cases (c == a)) [
                | inl e ↦
                    let f = sym ext.free ∙ ap (is_free h1.block) (sym (==→eq c a e)) ∙ u' in
                    absurd (ground (arith, f))
                | inr e ↦
                    let old : has c bs ≡ true = ground (arith, e, i') in
                    (old, ap flag (sym (ext.others c old).1) ∙ u')
              ];
        };
      },
    )

-- On a heap whose blocks are apart from each other and from the free pages, and with fuel for its
-- blocks and free pages, `kmalloc` comes to an end. Either it gives the address behind the header of a
-- block `a` of at least `size` bytes, a multiple of 16, where `a` was free or was no block
-- before; then `a` is in use, every other block in use is as before and still in use, no other has
-- come into use, and blocks and free pages are apart again. Or it returns NULL and changes
-- nothing; then the size is beyond every block, or no free block is large enough and the free
-- list has no run of pages for a new one. The direct map does not start at 0.
pub kmalloc_lem :
    (hhdm fuel size : ℕ) (h : Heap) (bs frees : List ℕ)
    → 0 < hhdm
    → IsHeap hhdm h bs frees
    → length bs < fuel
    → length frees < fuel
    → ((kmalloc hhdm fuel size h ≡ some (0, h)) × NoMemory size h bs frees)
      ⊎ Gives hhdm size h bs (kmalloc hhdm fuel size h)
kmalloc_lem hhdm fuel size h bs frees mapped heap enough enough' =
    elim (Bool-cases (ltb largest size)) [
      | inl e ↦
          let large = ltb→lt largest size e in inl (kmalloc-large hhdm fuel size h large, inl large)
      | inr e ↦
          let small = ltb→ge largest size e in
          let (even, over, fits) = rounded_lem size small in
          let run = kmalloc-use_block hhdm fuel size h small in
          let gives =
            λ (o : Option (ℕ × Heap)) (call : find_block hhdm fuel (rounded size) h ≡ o)
                (g : Gives hhdm size h bs (use_block fuel (rounded size) o)).
              subst (Gives hhdm size h bs) (sym (run ∙ ap (use_block fuel (rounded size)) call))
                g in
          elim (search_free_lem fuel h.block h.heap_block_list (rounded size) bs heap.blocks.chain
            enough) [
              | inr (pre, a, post, split, found, free, room) ↦
                  let held = subst (λ l. IsHeap hhdm h l frees) split heap in
                  let here : has a (pre ++ (a ∷ post)) ≡ true =
                    ground (arith, has-append a pre (a ∷ post)) in
                  let set : 0 < a = (held.blocks.bounded a here).0 in
                  let shorter : length post < fuel =
                    omega (arith, ap length split, length-append pre (a ∷ post)) in
                  inr (
                    gives (some (a, h))
                      (find_block-search hhdm fuel (rounded size) a h found (omega arith))
                      (subst
                        (λ l. Gives hhdm size h l (use_block fuel (rounded size) (some (a, h))))
                        (sym split)
                        (take-Gives hhdm fuel a size h pre post frees held shorter small room
                          free)))
              | inl (miss, none_fits) ↦
                  let call = find_block-new_block hhdm fuel (rounded size) h miss in
                  elim (new_block_lem hhdm fuel (rounded size) h bs frees mapped heap enough'
                    fits) [
                      | inl (failed, nowhere) ↦ inl (
                        run
                            ∙ ap (use_block fuel (rounded size)) (call ∙ failed)
                            ∙ use_block-zero fuel (rounded size) h,
                        inr (none_fits, nowhere),
                      )
                      | inr (a, h1, frees', made, set, ext, fewer) ↦ inr (
                          gives (some (a, h1)) (call ∙ made) (
                            new-Gives hhdm size a h h1 bs frees'
                              (use_block fuel (rounded size) (some (a, h1))) ext
                              (take-Gives hhdm fuel a size h1 [] bs frees' ext.is_heap enough small
                                ext.fits ext.free)))
                    ]
            ]
    ]

-- What `kmalloc` gives overlaps no block in use: from `p` on, `size` bytes are apart from the payload
-- of every block that was in use before.
pub kmalloc-apart :
    (hhdm fuel size p c : ℕ) (h h' : Heap) (bs frees : List ℕ)
    → 0 < hhdm
    → IsHeap hhdm h bs frees
    → length bs < fuel
    → length frees < fuel
    → kmalloc hhdm fuel size h ≡ some (p, h')
    → p ≢ 0
    → has c bs ≡ true
    → is_free h.block c ≡ false
    → (p + size ≤ c + heap_header_size) ⊎ (end_of h.block c ≤ p)
kmalloc-apart hhdm fuel size p c h h' bs frees mapped heap enough enough' call set i u =
    elim (kmalloc_lem hhdm fuel size h bs frees mapped heap enough enough') [
      | inl (failed, _) ↦
          let e = some-injective _ _ (sym call ∙ failed) in absurd (set (ap (λ r. r.0) e))
      | inr (a, h'', bs', frees', given, even, heap', al) ↦
          let p_is : p ≡ a + heap_header_size =
            ap (λ r. r.0) (some-injective _ _ (sym call ∙ given)) in
          let ne : c ≢ a = λ e.
            let f = ap (is_free h.block) e in
            let g = al.was_free (rw (← e) i) in
            absurd (let r = sym u ∙ f ∙ g in ground (arith, r)) in
          let (i', same) = al.others.kept c ne i u in
          let apart = heap'.blocks.apart a c al.has_block i' (λ e. ne (sym e)) in
          let size_same = ap (λ b. b.size) same in
          rw p_is (ground (arith, apart, size_same, al.fits))
    ]
