-- ===== src/Uaccess/Bounds.antt =====
-- The range checks of kernel/src/mm/uaccess.c.
use pros.Common.{
  ℕ, ◌+◌, ◌%◌, ◌≤◌, ◌<◌, ◌≡◌, ◌⊎◌, inl, inr, refl, ◌∙◌, arith, add64, u64_mod, ltb, leb,
  if◌then◌else◌, Bool-cases, leb→le, leb→gt, ge→ltb, lt→ltb, Res, ok, err,
}
use pros.Memory.{memcpy}
use pros.Memory.Move.{copied, memcpy-copied}
use pros.Uaccess.{vmm_addr_split, efault, copy_from_user, copy_to_user}

-- The two tests of a copy let exactly the ranges through that end at or below the split.
checked {ℓ} :
    {A : Type ℓ} (start len : ℕ) (result : Res A)
    → start < u64_mod
    → len < u64_mod
    → (if ltb (add64 start len) start
        then err efault
        else if ltb vmm_addr_split (add64 start len)
        then err efault
        else result)
      ≡ (if leb (start + len) vmm_addr_split then result else err efault)
checked start len result h k = elim (Bool-cases (leb (start + len) vmm_addr_split)) [
  | inl e ↦
      let le = leb→le (start + len) vmm_addr_split e in
      let exact : (start + len) % u64_mod ≡ start + len = omega (arith, le) in
      rw
        (exact, ge→ltb (start + len) start (omega arith), ge→ltb vmm_addr_split (start + len) le, e)
        refl
  | inr e ↦
      let gt = leb→gt (start + len) vmm_addr_split e in
      elim (Bool-cases (leb u64_mod (start + len))) [
        | inl wraps ↦
            let w = leb→le u64_mod (start + len) wraps in
            let low : (start + len) % u64_mod < start = omega (arith, w) in
            rw (lt→ltb ((start + len) % u64_mod) start low, e) refl
        | inr stays ↦
            let s = leb→gt u64_mod (start + len) stays in
            let exact : (start + len) % u64_mod ≡ start + len = omega (arith, s) in
            rw
              (
                exact,
                ge→ltb (start + len) start (omega arith),
                lt→ltb vmm_addr_split (start + len) gt,
                e,
              )
              refl
      ]
]

-- What a checked copy of `len` bytes between `start` and the rest of the memory comes to.
abbrev pub Copies : ℕ → ℕ → ℕ → ℕ → (ℕ → ℕ) → Res (ℕ → ℕ) → Type 0
Copies start dest src len m result =
    ((vmm_addr_split < start + len) × (result ≡ err efault))
    ⊎ ((m' : ℕ → ℕ) × (start + len ≤ vmm_addr_split)
        × (result ≡ ok m')
        × ((a : ℕ) → m' a ≡ copied dest src len m a))

copies :
    (start dest src len : ℕ) (m : ℕ → ℕ) (result : Res (ℕ → ℕ))
    → result ≡ (if leb (start + len) vmm_addr_split then ok (memcpy dest src len m) else err efault)
    → (start + len ≤ vmm_addr_split → (a : ℕ) → memcpy dest src len m a ≡ copied dest src len m a)
    → Copies start dest src len m result
copies start dest src len m result e copy = elim (Bool-cases (leb (start + len) vmm_addr_split)) [
  | inl inside ↦
      let le = leb→le (start + len) vmm_addr_split inside in
      inr (memcpy dest src len m, le, e ∙ rw inside refl, copy le)
  | inr outside ↦ inl (leb→gt (start + len) vmm_addr_split outside, e ∙ rw outside refl)
]

-- `copy_from_user` refuses with EFAULT every range that does not lie below the split as a whole, one
-- whose end wraps around included. Any other it copies: the bytes at `user_src` stand at
-- `kernel_dst`, and no other byte has changed. The kernel's range lies above the split, below 2^64.
pub copy_from_user-Copies :
    (kernel_dst user_src len : ℕ) (m : ℕ → ℕ)
    → user_src < u64_mod
    → vmm_addr_split ≤ kernel_dst
    → kernel_dst + len < u64_mod
    → Copies user_src kernel_dst user_src len m (copy_from_user kernel_dst user_src len m)
unfolding copy_from_user
copy_from_user-Copies kernel_dst user_src len m h k l =
    copies user_src kernel_dst user_src len m (copy_from_user kernel_dst user_src len m)
      (checked user_src len (ok (memcpy kernel_dst user_src len m)) h (omega arith))
      (λ le a.
        memcpy-copied kernel_dst user_src len m a l (omega (arith, le)) (inr (omega (arith, le))))

-- `copy_to_user` makes the same test on the user's range: it refuses with EFAULT, or copies the bytes at
-- `kernel_src` to `user_dst` and changes no other byte, so that none above the split changes. The
-- kernel's range lies above the split, below 2^64.
pub copy_to_user-Copies :
    (user_dst kernel_src len : ℕ) (m : ℕ → ℕ)
    → user_dst < u64_mod
    → vmm_addr_split ≤ kernel_src
    → kernel_src + len < u64_mod
    → Copies user_dst user_dst kernel_src len m (copy_to_user user_dst kernel_src len m)
unfolding copy_to_user
copy_to_user-Copies user_dst kernel_src len m h k l =
    copies user_dst user_dst kernel_src len m (copy_to_user user_dst kernel_src len m)
      (checked user_dst len (ok (memcpy user_dst kernel_src len m)) h (omega arith))
      (λ le a.
        memcpy-copied user_dst kernel_src len m a (omega (arith, le)) l (inl (omega (arith, le))))
