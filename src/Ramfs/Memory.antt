-- ===== src/Ramfs/Memory.antt =====
-- `ramfs_walk_page` with `alloc`, of kernel/src/fs/ramfs/ramfs.c, and the answers of the allocators.
use pros.Common.{
  ℕ, ◌+◌, ◌-◌, ◌≤◌, ◌<◌, ◌≡◌, ◌≢◌, refl, ap, ◌∙◌, Bool, true, false, Option, none, some, List, [],
  ◌∷◌, ◌++◌, arith, length, get_or, set, replicate, drop, drop-drop, get_or-drop, ltb, Bool-cases,
  Option-cases, inl, inr,
}
use pros.Ramfs.{Page, zero_page, grow_pages, touch_page, walk_page_alloc, next_answer}
use pros.Ramfs.Grow.{max_index, grow_first}

-- The next `m` answers are memory.
abbrev pub Granted : ℕ → List Bool → Type 0
Granted m answers = (k : ℕ) → k < m → get_or answers k false ≡ true

-- A call that takes at most `m` answers, and gives what it is asked for when these are memory.
abbrev pub Uses {ℓ} : {A : Type ℓ} → ℕ → List Bool → Option A → List Bool → Type ℓ
Uses m answers got answers' =
    (used : ℕ) × (used ≤ m) × (answers' ≡ drop used answers) × (Granted m answers → got ≢ none)

next_answer_lem :
    (answers : List Bool) → next_answer answers ≡ (get_or answers 0 false, drop 1 answers)
next_answer_lem [] = refl
next_answer_lem (a ∷ rest) = refl

touch_page-Uses :
    (pages : List (Option Page)) (index : ℕ) (answers : List Bool)
    → Uses 1 answers (touch_page pages index answers).0 (touch_page pages index answers).2
unfolding touch_page
touch_page-Uses pages index answers = elim (Option-cases (get_or pages index none)) [
  | inr (page, e) ↦
      let found : touch_page pages index answers ≡ (some page, pages, answers) =
        rw (e, touch_page) refl in
      rw found (0, omega arith, refl, λ g p. absurd cc)
  | inl e ↦ elim (Bool-cases (get_or answers 0 false)) [
    | inr refused ↦
        let failed : touch_page pages index answers ≡ (none, pages, drop 1 answers) =
          rw (touch_page, e, next_answer_lem answers, refused) refl in
        rw failed (1, omega arith, refl, λ g p. let t = g 0 (omega arith) in absurd cc)
    | inl granted ↦
        let made : touch_page pages index answers
            ≡ (some zero_page, set pages index (some zero_page), drop 1 answers) =
          rw (touch_page, e, next_answer_lem answers, granted) refl in
        rw made (1, omega arith, refl, λ g p. absurd cc)
  ]
]

grow_pages-Uses :
    (pages : List (Option Page)) (index : ℕ) (answers : List Bool)
    → index < max_index
    → Uses 1 answers (grow_pages pages index answers).0 (grow_pages pages index answers).1
unfolding grow_pages
grow_pages-Uses pages index answers k = elim (Bool-cases (ltb index (length pages))) [
  | inl e ↦
      let kept : grow_pages pages index answers ≡ (some pages, answers) = rw (e, grow_pages) refl in
      rw kept (0, omega arith, refl, λ g p. absurd cc)
  | inr e ↦
      let (n, p, r) = grow_first pages index k e in
      elim (Bool-cases (get_or answers 0 false)) [
        | inr refused ↦
            let failed : grow_pages pages index answers ≡ (none, drop 1 answers) =
              rw (grow_pages, e, p, next_answer_lem answers, refused) refl in
            rw failed (1, omega arith, refl, λ g p. let t = g 0 (omega arith) in absurd cc)
        | inl granted ↦
            let made : grow_pages pages index answers
                ≡ (some (pages ++ replicate (n - length pages) none), drop 1 answers) =
              rw (grow_pages, e, p, next_answer_lem answers, granted) refl in
            rw made (1, omega arith, refl, λ g p. absurd cc)
      ]
]

pub Granted-drop :
    (m used : ℕ) (answers : List Bool) → Granted (used + m) answers → Granted m (drop used answers)
Granted-drop m used answers g k h = get_or-drop used k answers false ∙ g (used + k) (omega arith)

pub walk_page_alloc-Uses :
    (pages : List (Option Page)) (index : ℕ) (answers : List Bool)
    → index < max_index
    → Uses 2 answers (walk_page_alloc pages index answers).0 (walk_page_alloc pages index answers).2
unfolding walk_page_alloc
walk_page_alloc-Uses pages index answers k =
    let (grown, rest) = grow_pages pages index answers in
    let (used, le, eq, enough) = grow_pages-Uses pages index answers k in
    elim (Option-cases grown) [
      | inl e ↦
          let failed : walk_page_alloc pages index answers ≡ (none, pages, rest) =
            rw (walk_page_alloc, e) refl in
          rw failed (used, omega (arith, le), eq, λ g. absurd (enough (λ i h. g i (omega arith)) e))
      | inr (pages', e) ↦
          let walked : walk_page_alloc pages index answers ≡ touch_page pages' index rest =
            rw (walk_page_alloc, e) refl in
          let (used', le', eq', enough') = touch_page-Uses pages' index rest in
          rw walked (
            used + used',
            omega (arith, le, le'),
            eq' ∙ ap (drop used') eq ∙ drop-drop used' used answers,
            λ g. enough' (λ i h.
                ap (λ a. get_or a i false) eq
                ∙ Granted-drop 1 used answers (λ j l. g j (omega (arith, le))) i h),
          )
    ]
