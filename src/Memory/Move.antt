-- ===== src/Memory/Move.antt =====
-- `memmove` and `memcpy` of kernel/src/core/memory.c against the block copy that C describes.
use pros.Common.{
  ℕ, zero, suc, ◌+◌, ◌-◌, ◌%◌, ◌≤◌, ◌<◌, ◌≡◌, ◌⊎◌, inl, inr, refl, ap, ◌∙◌, ◌&&◌, arith, update,
  u64_mod, ltb, leb, ◌==◌, if◌then◌else◌, Bool-cases, ltb→lt, ltb→ge, leb→le, ==→eq,
}
use pros.Memory.{copy_up, copy_down, memcpy, memmove}

-- The memory after the `n` bytes at `src`, as they are before, have been put at `dest`.
abbrev pub copied : ℕ → ℕ → ℕ → (ℕ → ℕ) → ℕ → ℕ
copied dest src n m a = if leb dest a && ltb a (dest + n) then m (src + (a - dest)) else m a

-- One more byte in front of the block, or behind it.
copied_front :
    (d s left : ℕ) (m : ℕ → ℕ) (a : ℕ)
    → (d ≤ s) ⊎ (s + suc left ≤ d)
    → copied (d + 1) (s + 1) left (update m d (m s)) a ≡ copied d s (suc left) m a
copied_front d s left m a o = elim (Bool-cases (leb (d + 1) a)) [
  | inl e ↦
      let ix : s + 1 + (a - (d + 1)) ≡ s + (a - d) = omega (arith, leb→le (d + 1) a e) in
      rw (e, ix) (ground (arith, e, o))
  | inr e ↦ elim (Bool-cases (a == d)) [
    | inl same ↦
        let at = ==→eq a d same in
        let ix : s + (d - d) ≡ s = omega arith in rw (at, ix) (ground arith)
    | inr other ↦ ground (arith, e, other)
  ]
]

copied_back :
    (d s i : ℕ) (m : ℕ → ℕ) (a : ℕ)
    → (s ≤ d) ⊎ (d + suc i ≤ s)
    → copied d s i (update m (d + i) (m (s + i))) a ≡ copied d s (suc i) m a
copied_back d s i m a o = elim (Bool-cases (a == d + i)) [
  | inl same ↦
      let at = ==→eq a (d + i) same in
      let ix : s + (d + i - d) ≡ s + i = omega arith in rw (at, ix) (ground arith)
  | inr other ↦ ground (arith, other, o)
]

copy_up_lem :
    (left i dest src : ℕ) (m : ℕ → ℕ) (a : ℕ)
    → dest + i + left < u64_mod
    → src + i + left < u64_mod
    → (dest ≤ src) ⊎ (src + i + left ≤ dest)
    → copy_up left i dest src m a ≡ copied (dest + i) (src + i) left m a
unfolding copy_up
copy_up_lem zero i dest src m a h k o = ground arith
copy_up_lem (suc left) i dest src m a h k o =
    let d : (dest + i) % u64_mod ≡ dest + i = omega arith in
    let s : (src + i) % u64_mod ≡ src + i = omega arith in
    let m' = update m (dest + i) (m (src + i)) in
    let rest =
      copy_up_lem left (i + 1) dest src m' a (omega arith) (omega arith) (ground (arith, o)) in
    let d' : dest + (i + 1) ≡ dest + i + 1 = omega arith in
    let s' : src + (i + 1) ≡ src + i + 1 = omega arith in
    rw (d, s)
      (rest
        ∙ ap (λ x. copied x (src + (i + 1)) left m' a) d'
        ∙ ap (λ x. copied (dest + i + 1) x left m' a) s'
        ∙ copied_front (dest + i) (src + i) left m a (ground (arith, o)))

copy_down_lem :
    (i dest src : ℕ) (m : ℕ → ℕ) (a : ℕ)
    → dest + i < u64_mod
    → src + i < u64_mod
    → (src ≤ dest) ⊎ (dest + i ≤ src)
    → copy_down i dest src m a ≡ copied dest src i m a
unfolding copy_down
copy_down_lem zero dest src m a h k o = ground arith
copy_down_lem (suc i) dest src m a h k o =
    let d : (dest + i) % u64_mod ≡ dest + i = omega arith in
    let s : (src + i) % u64_mod ≡ src + i = omega arith in
    let rest =
      copy_down_lem i dest src (update m (dest + i) (m (src + i))) a (omega arith) (omega arith)
        (ground (arith, o)) in
    rw (d, s) (rest ∙ copied_back dest src i m a o)

-- `memmove` puts the `n` bytes at `src`, as they are before, at `dest`, and changes no other byte, however
-- the two ranges overlap. Both end below 2^64.
pub memmove-copied :
    (dest src n : ℕ) (m : ℕ → ℕ) (a : ℕ)
    → dest + n < u64_mod
    → src + n < u64_mod
    → memmove dest src n m a ≡ copied dest src n m a
unfolding memmove
memmove-copied dest src n m a h k = elim (Bool-cases (ltb dest src)) [
  | inl up ↦
      let le = ltb→lt dest src up in
      let d : dest + 0 ≡ dest = omega arith in
      let s : src + 0 ≡ src = omega arith in
      rw up (
        copy_up_lem n 0 dest src m a (omega arith) (omega arith) (inl (omega (arith, le)))
        ∙ ap (λ x. copied x (src + 0) n m a) d
        ∙ ap (λ x. copied dest x n m a) s)
  | inr down ↦
      let ge = ltb→ge dest src down in
      elim (Bool-cases (ltb src dest)) [
        | inl lower ↦ rw (down, lower) (copy_down_lem n dest src m a h k (inl ge))
        | inr same ↦
            let e : src ≡ dest = omega (arith, ge, ltb→ge src dest same) in
            rw (down, same, e) (stays dest n m a)
      ]
]
  where
    stays : (p n : ℕ) (m : ℕ → ℕ) (a : ℕ) → m a ≡ copied p p n m a
    stays p n m a = elim (Bool-cases (leb p a)) [
      | inl e ↦ let ix : p + (a - p) ≡ a = omega (arith, leb→le p a e) in rw ix (ground arith)
      | inr e ↦ rw e refl
    ]

-- `memcpy` does the same between ranges that do not overlap, and where `dest` is not above `src`.
pub memcpy-copied :
    (dest src n : ℕ) (m : ℕ → ℕ) (a : ℕ)
    → dest + n < u64_mod
    → src + n < u64_mod
    → (dest ≤ src) ⊎ (src + n ≤ dest)
    → memcpy dest src n m a ≡ copied dest src n m a
unfolding memcpy
memcpy-copied dest src n m a h k o =
    let d : dest + 0 ≡ dest = omega arith in
    let s : src + 0 ≡ src = omega arith in
    copy_up_lem n 0 dest src m a (omega arith) (omega arith) (ground (arith, o))
    ∙ ap (λ x. copied x (src + 0) n m a) d
    ∙ ap (λ x. copied dest x n m a) s
