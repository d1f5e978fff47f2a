-- ===== src/Memory/Strings.antt =====
-- The strings of kernel/src/core/memory.c, which end in a NUL byte, as lists of bytes.
use mathlib.Core.Path.{subst}
use pros.Common.{
  ℕ, zero, suc, ◌+◌, ◌%◌, ◌<◌, ◌≡◌, ◌≢◌, ◌⊎◌, refl, sym, ap, ◌∙◌, some, List, [], ◌∷◌, arith,
  length, take, u64_mod, ◌==◌, if◌then◌else◌, Bool-cases, inl, inr, ne→==, ltb, ==→eq, ==→ne,
}
use pros.Memory.{ℤ, byte_diff, strlen, strlen_loop, strcmp, strncmp}

-- The bytes `xs`, none of them 0, and a NUL behind them stand at `p`; the string ends below 2^64.
abbrev pub IsString : (ℕ → ℕ) → ℕ → List ℕ → Type 0
IsString m p [] = (m p ≡ 0) × (p < u64_mod)
IsString m p (x ∷ xs) = (m p ≡ x) × (x ≢ 0) × (p + 1 < u64_mod) × IsString m (p + 1) xs

strlen_loop-length :
    (fuel s len : ℕ) (m : ℕ → ℕ) (xs : List ℕ)
    → IsString m (s + len) xs
    → length xs < fuel
    → strlen_loop fuel s m len ≡ some (len + length xs)
unfolding strlen_loop
strlen_loop-length zero s len m xs h enough = absurd (omega arith)
strlen_loop-length (suc fuel) s len m [] h enough =
    let at : (s + len) % u64_mod ≡ s + len = omega arith in
    let e : len + 0 ≡ len = omega arith in rw (at, h.0, e) refl
strlen_loop-length (suc fuel) s len m (x ∷ xs) (byte, set, small, rest) enough =
    let at : (s + len) % u64_mod ≡ s + len = omega (arith, small) in
    let up : (len + 1) % u64_mod ≡ len + 1 = omega (arith, small) in
    let e : s + len + 1 ≡ s + (len + 1) = omega arith in
    let tail = strlen_loop-length fuel s (len + 1) m xs (rw e at rest) (omega arith) in
    let sum : len + 1 + length xs ≡ len + suc (length xs) = omega arith in
    rw (at, byte, ne→== x 0 set, up, tail, sum) refl

-- With fuel for a string, `strlen` is its length.
pub strlen-length :
    (fuel s : ℕ) (m : ℕ → ℕ) (xs : List ℕ)
    → IsString m s xs
    → length xs < fuel
    → strlen fuel s m ≡ some (length xs)
unfolding strlen
strlen-length fuel s m xs h enough =
    let e : s + 0 ≡ s = omega arith in
    let e' : 0 + length xs ≡ length xs = omega arith in
    strlen_loop-length fuel s 0 m xs (rw e h) enough ∙ ap some e'

-- `strcmp` and `strncmp` on strings as lists: the difference of the first bytes in which they differ, a
-- NUL behind each; 0 if they are equal.
unfoldable pub list_cmp : List ℕ → List ℕ → ℤ
list_cmp [] [] = ℤ.pos 0
list_cmp [] (y ∷ ys) = byte_diff 0 y
list_cmp (x ∷ xs) [] = byte_diff x 0
list_cmp (x ∷ xs) (y ∷ ys) = if x == y then list_cmp xs ys else byte_diff x y

-- `strncmp` is `list_cmp` of the first `n` bytes.
strncmp-list_cmp :
    (n s1 s2 : ℕ) (m : ℕ → ℕ) (xs ys : List ℕ)
    → IsString m s1 xs
    → IsString m s2 ys
    → strncmp s1 s2 n m ≡ list_cmp (take n xs) (take n ys)
unfolding strncmp list_cmp byte_diff
strncmp-list_cmp zero s1 s2 m xs ys h k = refl
strncmp-list_cmp (suc n) s1 s2 m [] [] h k = rw (h.0, k.0) refl
strncmp-list_cmp (suc n) s1 s2 m [] (y ∷ ys) h k = rw (h.0, k.0) refl
strncmp-list_cmp (suc n) s1 s2 m (x ∷ xs) [] h k = rw (h.0, k.0, ne→== x 0 h.1) refl
strncmp-list_cmp (suc n) s1 s2 m (x ∷ xs) (y ∷ ys) h k =
    let a1 : (s1 + 1) % u64_mod ≡ s1 + 1 = omega (arith, h.2) in
    let a2 : (s2 + 1) % u64_mod ≡ s2 + 1 = omega (arith, k.2) in
    let rest = strncmp-list_cmp n (s1 + 1) (s2 + 1) m xs ys h.3 k.3 in
    rw (a1, a2, rest, h.0, k.0, ne→== x 0 h.1) refl

-- The number is `a` less `b`.
abbrev pub IsDiff : ℕ → ℕ → ℤ → Type 0
IsDiff a b (ℤ.pos n) = a ≡ b + n
IsDiff a b (ℤ.negsuc n) = b ≡ a + suc n

-- The number is 0 for equal strings, and else the difference of the first bytes that differ, where the
-- string that ends first has a 0.
abbrev pub Compares : List ℕ → List ℕ → ℤ → Type 0
Compares [] [] r = r ≡ ℤ.pos 0
Compares [] (y ∷ ys) r = IsDiff 0 y r
Compares (x ∷ xs) [] r = IsDiff x 0 r
Compares (x ∷ xs) (y ∷ ys) r = ((x ≡ y) × Compares xs ys r) ⊎ ((x ≢ y) × IsDiff x y r)

byte_diff-IsDiff : (a b : ℕ) → IsDiff a b (byte_diff a b)
unfolding byte_diff
byte_diff-IsDiff a b = elim (Bool-cases (ltb a b)) [
  | inl e ↦ rw e (ground (arith, e))
  | inr e ↦ rw e (ground (arith, e))
]

list_cmp-Compares : (xs ys : List ℕ) → Compares xs ys (list_cmp xs ys)
unfolding list_cmp
list_cmp-Compares [] [] = refl
list_cmp-Compares [] (y ∷ ys) = byte_diff-IsDiff 0 y
list_cmp-Compares (x ∷ xs) [] = byte_diff-IsDiff x 0
list_cmp-Compares (x ∷ xs) (y ∷ ys) = elim (Bool-cases (x == y)) [
  | inl e ↦ rw e (inl (==→eq x y e, list_cmp-Compares xs ys))
  | inr e ↦ rw e (inr (==→ne x y e, byte_diff-IsDiff x y))
]

-- `strncmp` compares the first `n` bytes of two strings: it gives 0 where they are the same, and else
-- the difference of the first two bytes that differ, its sign included, a string that has ended
-- counting as a 0.
pub strncmp-Compares :
    (n s1 s2 : ℕ) (m : ℕ → ℕ) (xs ys : List ℕ)
    → IsString m s1 xs
    → IsString m s2 ys
    → Compares (take n xs) (take n ys) (strncmp s1 s2 n m)
strncmp-Compares n s1 s2 m xs ys h k =
    subst (Compares (take n xs) (take n ys)) (sym (strncmp-list_cmp n s1 s2 m xs ys h k))
      (list_cmp-Compares (take n xs) (take n ys))

-- With fuel for the first string, `strcmp` compares two strings whole.
strcmp-list_cmp :
    (fuel s1 s2 : ℕ) (m : ℕ → ℕ) (xs ys : List ℕ)
    → IsString m s1 xs
    → IsString m s2 ys
    → length xs < fuel
    → strcmp fuel s1 s2 m ≡ some (list_cmp xs ys)
unfolding strcmp list_cmp byte_diff
strcmp-list_cmp zero s1 s2 m xs ys h k enough = absurd (omega arith)
strcmp-list_cmp (suc fuel) s1 s2 m [] [] h k enough = rw (h.0, k.0) refl
strcmp-list_cmp (suc fuel) s1 s2 m [] (y ∷ ys) h k enough = rw (h.0, k.0) refl
strcmp-list_cmp (suc fuel) s1 s2 m (x ∷ xs) [] h k enough = rw (h.0, k.0, ne→== x 0 h.1) refl
strcmp-list_cmp (suc fuel) s1 s2 m (x ∷ xs) (y ∷ ys) h k enough =
    let a1 : (s1 + 1) % u64_mod ≡ s1 + 1 = omega (arith, h.2) in
    let a2 : (s2 + 1) % u64_mod ≡ s2 + 1 = omega (arith, k.2) in
    let rest = strcmp-list_cmp fuel (s1 + 1) (s2 + 1) m xs ys h.3 k.3 (omega arith) in
    rw (a1, a2, rest, h.0, k.0, ne→== x 0 h.1)
      (elim (Bool-cases (x == y)) [ inl e ↦ rw e refl | inr e ↦ rw e refl ])
