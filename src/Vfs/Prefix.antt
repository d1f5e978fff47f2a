-- ===== src/Vfs/Prefix.antt =====
-- The test of kernel/src/fs/vfs/vfs.c on mounts: the path begins with that of the mount.
use pros.Common.{
  ℕ, suc, replicate, ◌≡◌, ◌≢◌, refl, ap, sym, inl, inr, true, false, List, [], ◌∷◌, ◌++◌, arith,
  All, length, take, drop, ltb, ◌==◌, Bool-cases, ==→eq, ==→ne,
}
use pros.Memory.{byte_diff}
use pros.Memory.Strings.{list_cmp}
use pros.Memory.Search.{is_prefix}
use pros.Vfs.{Mount, is_zero, matches, skip_slashes}

-- A string holds no NUL.
abbrev pub IsPath : List ℕ → Type 0
IsPath path = All (λ c. c ≢ 0) path

diff_lem : (a b : ℕ) → a ≢ b → is_zero (byte_diff a b) ≡ false
unfolding is_zero byte_diff
diff_lem a b ne = elim (Bool-cases (ltb a b)) [
  | inl e ↦ rw e refl
  | inr e ↦ rw e (ground (arith, e, ne))
]

is_zero-list_cmp :
    (path xs : List ℕ)
    → IsPath xs
    → is_zero (list_cmp (take (length xs) path) (take (length xs) xs)) ≡ is_prefix xs path
unfolding list_cmp is_prefix is_zero
is_zero-list_cmp path [] h = refl
is_zero-list_cmp [] (x ∷ xs) h = diff_lem 0 x (λ e. h.0 (sym e))
is_zero-list_cmp (y ∷ path) (x ∷ xs) h = elim (Bool-cases (y == x)) [
  | inl e ↦ rw e (is_zero-list_cmp path xs h.1)
  | inr e ↦ rw e (diff_lem y x (==→ne y x e))
]

pub matches-is_prefix :
    (path : List ℕ) (mount : Mount)
    → IsPath mount.path
    → matches path mount ≡ is_prefix mount.path path
unfolding matches
matches-is_prefix path mount h = is_zero-list_cmp path mount.path h

pub is_prefix-append : (xs ys : List ℕ) → is_prefix xs ys ≡ true → ys ≡ xs ++ drop (length xs) ys
unfolding is_prefix
is_prefix-append [] ys h = refl
is_prefix-append (x ∷ xs) [] h = absurd (ground (arith, h))
is_prefix-append (x ∷ xs) (y ∷ ys) h =
    let e : y ≡ x = ==→eq y x (ground (arith, h)) in
    let rest = is_prefix-append xs ys (ground (arith, h)) in rw e (ap (λ l. x ∷ l) rest)

pub append-is_prefix : (xs ys : List ℕ) → is_prefix xs (xs ++ ys) ≡ true
unfolding is_prefix
append-is_prefix [] ys = refl
append-is_prefix (x ∷ xs) ys = ground (arith, append-is_prefix xs ys)

-- A string that does not begin with a slash.
abbrev pub NoSlash : List ℕ → Type 0
NoSlash [] = Unit
NoSlash (c ∷ path) = c ≢ 0x2f

-- What is skipped is all the slashes in front, and nothing else.
pub skip_slashes_lem :
    (path : List ℕ)
    → (n : ℕ) × (path ≡ replicate n 0x2f ++ skip_slashes path) × NoSlash (skip_slashes path)
unfolding skip_slashes
skip_slashes_lem [] = (0, refl, tt)
skip_slashes_lem (c ∷ path) = elim (Bool-cases (c == 0x2f)) [
  | inl e ↦
      let (n, split, none_left) = skip_slashes_lem path in
      (
        suc n,
        rw (e, skip_slashes) (rw (==→eq c 0x2f e) (ap (λ l. 0x2f ∷ l) split)),
        rw (e, skip_slashes) none_left,
      )
  | inr e ↦ (0, rw (e, skip_slashes) refl, rw (e, skip_slashes) (==→ne c 0x2f e))
]
