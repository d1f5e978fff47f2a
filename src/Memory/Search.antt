-- ===== src/Memory/Search.antt =====
-- `strstr` of kernel/src/core/memory.c finds the first occurrence.
use pros.Common.{
  ℕ, zero, suc, ◌+◌, ◌%◌, ◌<◌, ◌≡◌, ◌≢◌, refl, ap, sym, ◌∙◌, Bool, true, false, ◌&&◌, Option, none,
  some, List, [], ◌∷◌, arith, length, u64_mod, ◌==◌, if◌then◌else◌, Bool-cases, Option-cases, inl,
  inr, ne→==,
}
use pros.Memory.{needle_at, strstr, strstr_step, strstr_loop}
use pros.Memory.Strings.{IsString}

-- Does a list begin with another?
unfoldable pub is_prefix : List ℕ → List ℕ → Bool
is_prefix [] ys = true
is_prefix (x ∷ xs) [] = false
is_prefix (x ∷ xs) (y ∷ ys) = (y == x) && is_prefix xs ys

-- The index of the first occurrence of a list in another.
unfoldable pub find : List ℕ → List ℕ → Option ℕ
unfolding is_prefix
find xs [] = if is_prefix xs [] then some 0 else none
find xs (y ∷ ys) =
    if is_prefix xs (y ∷ ys)
    then some 0
    else elim (find xs ys) [ none ↦ none | some i ↦ some (suc i) ]

-- What `strstr` returns for an index in the string at `p`.
abbrev pub found_at : ℕ → Option ℕ → ℕ
found_at p none = 0
found_at p (some i) = p + i

needle_at-is_prefix :
    (fuel h n : ℕ) (m : ℕ → ℕ) (xs ys : List ℕ)
    → IsString m n xs
    → IsString m h ys
    → length ys < fuel
    → needle_at fuel h n m ≡ some (is_prefix xs ys)
unfolding needle_at is_prefix
needle_at-is_prefix zero h n m xs ys s t enough = absurd (omega arith)
needle_at-is_prefix (suc fuel) h n m [] [] s t enough = rw (s.0, t.0) refl
needle_at-is_prefix (suc fuel) h n m [] (y ∷ ys) s t enough = rw (s.0, t.0, ne→== y 0 t.1) refl
needle_at-is_prefix (suc fuel) h n m (x ∷ xs) [] s t enough = rw (s.0, t.0, ne→== x 0 s.1) refl
needle_at-is_prefix (suc fuel) h n m (x ∷ xs) (y ∷ ys) s t enough =
    let a1 : (h + 1) % u64_mod ≡ h + 1 = omega (arith, t.2) in
    let a2 : (n + 1) % u64_mod ≡ n + 1 = omega (arith, s.2) in
    let rest = needle_at-is_prefix fuel (h + 1) (n + 1) m xs ys s.3 t.3 (omega arith) in
    rw (a1, a2, rest, s.0, t.0, ne→== x 0 s.1, ne→== y 0 t.1)
      (elim (Bool-cases (y == x)) [ inl e ↦ rw e refl | inr e ↦ rw e refl ])

strstr_loop-step :
    (fuel h n : ℕ) (m : ℕ → ℕ)
    → m h ≢ 0
    → h + 1 < u64_mod
    → strstr_loop (suc fuel) h n m
      ≡ strstr_step (needle_at (suc fuel) h n m) h (strstr_loop fuel (h + 1) n m)
unfolding strstr_loop
strstr_loop-step fuel h n m set small =
    let up : (h + 1) % u64_mod ≡ h + 1 = omega arith in rw (ne→== (m h) 0 set, up) refl

-- One place of the search, on the lists.
step-find :
    (h y : ℕ) (xs ys : List ℕ)
    → strstr_step (some (is_prefix xs (y ∷ ys))) h (some (found_at (h + 1) (find xs ys)))
      ≡ some (found_at h (find xs (y ∷ ys)))
unfolding strstr_step find
step-find h y xs ys = elim (Bool-cases (is_prefix xs (y ∷ ys))) [
  | inl e ↦ rw e (ap some (omega arith))
  | inr e ↦ elim (Option-cases (find xs ys)) [
    | inl none_found ↦ rw (e, none_found) refl
    | inr (i, found) ↦ rw (e, found) (ap some (omega arith))
  ]
]

strstr_loop-find :
    (fuel h n x : ℕ) (m : ℕ → ℕ) (xs ys : List ℕ)
    → IsString m n (x ∷ xs)
    → IsString m h ys
    → length ys < fuel
    → strstr_loop fuel h n m ≡ some (found_at h (find (x ∷ xs) ys))
unfolding strstr_loop
strstr_loop-find zero h n x m xs ys s t enough = absurd (omega arith)
strstr_loop-find (suc fuel) h n x m xs [] s t enough = unfold find is_prefix in rw t.0 refl
strstr_loop-find (suc fuel) h n x m xs (y ∷ ys) s t enough =
    let set : m h ≢ 0 = λ e. t.1 (sym t.0 ∙ e) in
    let here = needle_at-is_prefix (suc fuel) h n m (x ∷ xs) (y ∷ ys) s t enough in
    let rest = strstr_loop-find fuel (h + 1) n x m xs ys s t.3 (omega arith) in
    strstr_loop-step fuel h n m set t.2
    ∙ ap (λ o. strstr_step o h (strstr_loop fuel (h + 1) n m)) here
    ∙ ap (strstr_step (some (is_prefix (x ∷ xs) (y ∷ ys))) h) rest
    ∙ step-find h y (x ∷ xs) ys

-- With fuel for the first string, `strstr` returns the address where the second string first occurs in
-- it, and NULL if it does not.
pub strstr-find :
    (fuel h n : ℕ) (m : ℕ → ℕ) (xs ys : List ℕ)
    → IsString m n xs
    → IsString m h ys
    → length ys < fuel
    → strstr fuel h n m ≡ some (found_at h (find xs ys))
unfolding strstr find is_prefix
strstr-find fuel h n m [] [] s t enough = rw s.0 (ap some (omega arith))
strstr-find fuel h n m [] (y ∷ ys) s t enough = rw s.0 (ap some (omega arith))
strstr-find fuel h n m (x ∷ xs) ys s t enough =
    rw (s.0, ne→== x 0 s.1) (strstr_loop-find fuel h n x m xs ys s t enough)
