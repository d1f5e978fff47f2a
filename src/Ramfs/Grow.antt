-- ===== src/Ramfs/Grow.antt =====
-- `ramfs_walk_page` with `alloc`, of kernel/src/fs/ramfs/ramfs.c: room for a page changes no byte.
use pros.Common.{
  ℕ, zero, suc, ◌+◌, ◌-◌, ◌^◌, ◌≤◌, ◌<◌, ◌≡◌, ◌⊎◌, refl, ap, sym, ◌∙◌, Bool, false, Option, none,
  some, List, ◌++◌, arith, length, get_or, set, replicate, length-append, length-replicate,
  length-set, get_or-append-replicate, get_or-set_self, get_or-set_ne, mul64, ltb, leb, ◌==◌,
  if◌then◌else◌, Bool-cases, Option-cases, inl, inr, ==→eq, ==→ne, ltb→lt, ltb→ge, leb→le, leb→gt,
  gt→leb,
}
use pros.Ramfs.{Page, zero_page, grow, grow_pages, touch_page, walk_page_alloc, next_answer}
use pros.Ramfs.Pages.{page_byte}

-- The index of a page of a 64-bit offset.
abbrev pub max_index : ℕ
max_index = 2 ^ 52

grow_lem :
    (fuel count index : ℕ)
    → 0 < count
    → index < count + fuel
    → index < max_index
    → (n : ℕ) × (grow (suc fuel) count index ≡ some n) × (count ≤ n) × (index < n)
unfolding grow
grow_lem zero count index pos h k =
    (count, rw (gt→leb count index (omega arith), grow) refl, omega arith, omega arith)
grow_lem (suc fuel) count index pos h k = elim (Bool-cases (leb count index)) [
  | inr e ↦ (count, rw (e, grow) refl, omega arith, leb→gt count index e)
  | inl e ↦
      let le = leb→le count index e in
      let (n, p, q, r) =
        grow_lem fuel (mul64 count 2) index (omega (arith, le)) (omega (arith, le)) k in
      (n, rw (e, grow) p, omega (arith, q, le), r)
]

-- The loop that doubles comes to an end: at a count of pages that has room for `index`.
pub grow_first :
    (pages : List (Option Page)) (index : ℕ)
    → index < max_index
    → ltb index (length pages) ≡ false
    → (n : ℕ) × (grow (suc index) (if length pages == 0 then 4 else mul64 (length pages) 2) index
        ≡ some n)
      × (index < n)
grow_first pages index k e =
    let first = if length pages == 0 then 4 else mul64 (length pages) 2 in
    let pos : 0 < first = ground (arith, ltb→ge index (length pages) e) in
    let (n, p, q, r) = grow_lem index first index pos (omega (arith, pos)) k in (n, p, r)

-- Two page arrays that stand for the same bytes.
abbrev pub SameBytes : List (Option Page) → List (Option Page) → Type 0
SameBytes pages pages' =
    (i j : ℕ) → page_byte (get_or pages' i none) j ≡ page_byte (get_or pages i none) j

-- What room for `index` comes to: failure, or an entry for it, and the same bytes.
grow_pages_lem :
    (pages : List (Option Page)) (index : ℕ) (answers : List Bool)
    → index < max_index
    → ((grow_pages pages index answers).0 ≡ none)
      ⊎ ((pages' : List (Option Page)) × ((grow_pages pages index answers).0 ≡ some pages')
          × (index < length pages')
          × SameBytes pages pages')
unfolding grow_pages
grow_pages_lem pages index answers k = elim (Bool-cases (ltb index (length pages))) [
  | inl e ↦ inr (pages, rw e refl, ltb→lt index (length pages) e, λ i j. refl)
  | inr e ↦
      let (n, p, r) = grow_first pages index k e in
      elim (Bool-cases (next_answer answers).0) [
        | inr refused ↦ inl (rw (e, p, refused) refl)
        | inl granted ↦ inr (
          pages ++ replicate (n - length pages) none,
          rw (e, p, granted) refl,
          omega (
            arith,
            length-append pages (replicate (n - length pages) none),
            length-replicate {A = Option Page} (n - length pages) none,
          ),
          λ i j. ap (λ o. page_byte o j) (get_or-append-replicate pages (n - length pages) i none),
        )
      ]
]

-- What a page that was asked for comes to: no page, or the page at `index`.
abbrev pub Walked : List (Option Page) → ℕ → Option Page → List (Option Page) → Type 0
Walked pages index got pages' =
    (got ≡ none)
    ⊎ ((page : Page) × (got ≡ some page)
        × (index < length pages')
        × (get_or pages' index none ≡ some page))

SameBytes-zero_page :
    (pages : List (Option Page)) (index : ℕ)
    → index < length pages
    → get_or pages index none ≡ none
    → SameBytes pages (set pages index (some zero_page))
SameBytes-zero_page pages index h e i j = elim (Bool-cases (index == i)) [
  | inl same ↦
      let ix = ==→eq index i same in
      rw (sym ix, get_or-set_self pages index (some zero_page) none h, e) refl
  | inr other ↦ rw (get_or-set_ne pages index i (some zero_page) none (==→ne index i other)) refl
]

touch_page_lem :
    (pages : List (Option Page)) (index : ℕ) (answers : List Bool)
    → index < length pages
    → Walked pages index (touch_page pages index answers).0 (touch_page pages index answers).1
      × SameBytes pages (touch_page pages index answers).1
unfolding touch_page
touch_page_lem pages index answers h = elim (Option-cases (get_or pages index none)) [
  | inr (page, e) ↦
      let found : touch_page pages index answers ≡ (some page, pages, answers) =
        rw (e, touch_page) refl in
      rw found (inr (page, refl, h, e), λ i j. refl)
  | inl e ↦ elim (Bool-cases (next_answer answers).0) [
    | inr refused ↦
        let failed : touch_page pages index answers ≡ (none, pages, (next_answer answers).1) =
          rw (e, refused, touch_page) refl in
        rw failed (inl refl, λ i j. refl)
    | inl granted ↦
        let fresh = set pages index (some zero_page) in
        let made : touch_page pages index answers
            ≡ (some zero_page, fresh, (next_answer answers).1) =
          rw (e, granted, touch_page) refl in
        let own = get_or-set_self pages index (some zero_page) none h in
        let size = length-set pages index (some zero_page) in
        rw made
          (inr (zero_page, refl, omega (arith, size), own), SameBytes-zero_page pages index h e)
  ]
]

-- `ramfs_walk_page` with `alloc` finds the page or fails, and changes no byte of the file.
pub walk_page_alloc_lem :
    (pages : List (Option Page)) (index : ℕ) (answers : List Bool)
    → index < max_index
    → Walked pages index
        (walk_page_alloc pages index answers).0
        (walk_page_alloc pages index answers).1
      × SameBytes pages (walk_page_alloc pages index answers).1
unfolding walk_page_alloc
walk_page_alloc_lem pages index answers k =
    let (grown, rest) = grow_pages pages index answers in
    elim (grow_pages_lem pages index answers k) [
      | inl e ↦
          let failed : walk_page_alloc pages index answers ≡ (none, pages, rest) =
            rw (e, walk_page_alloc) refl in
          rw failed (inl refl, λ i j. refl)
      | inr (pages', e, room, same) ↦
          let walked : walk_page_alloc pages index answers ≡ touch_page pages' index rest =
            rw (e, walk_page_alloc) refl in
          let (page, same') = touch_page_lem pages' index rest room in
          rw walked (page, λ i j. same' i j ∙ same i j)
    ]
