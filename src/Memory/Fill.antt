-- ===== src/Memory/Fill.antt =====
-- `memset` of kernel/src/core/memory.c, and numbers stored byte by byte.
use pros.Common.{
  ℕ, zero, suc, ◌+◌, ◌*◌, ◌/◌, ◌%◌, ◌≤◌, ◌<◌, ◌≡◌, ◌⊎◌, inl, refl, sym, ap, ◌∙◌, ◌&&◌, arith, add64,
  u64_mod, update, update_eq, update_ne, ltb, leb, if◌then◌else◌,
}
use pros.Memory.{memset, set_up}

-- The memory with the `n` bytes at `s` set to one value.
abbrev pub filled : ℕ → ℕ → ℕ → (ℕ → ℕ) → ℕ → ℕ
filled s c n m a = if leb s a && ltb a (s + n) then c % 256 else m a

set_up-filled :
    (left i s c : ℕ) (m : ℕ → ℕ) (a : ℕ)
    → s + i + left < u64_mod
    → set_up left i s c m a ≡ filled (s + i) c left m a
unfolding set_up
set_up-filled zero i s c m a h = ground arith
set_up-filled (suc left) i s c m a h =
    let at : add64 s i ≡ s + i = omega (arith, h) in
    let rest = set_up-filled left (i + 1) s c (update m (s + i) (c % 256)) a (omega (arith, h)) in
    rw at (rest ∙ ground arith)

-- `memset` sets the bytes of a range that does not wrap, and no other.
pub memset-filled :
    (s c n : ℕ) (m : ℕ → ℕ) (a : ℕ) → s + n < u64_mod → memset s c n m a ≡ filled s c n m a
unfolding memset
memset-filled s c n m a h =
    let e : s + 0 ≡ s = omega arith in
    set_up-filled n 0 s c m a (omega (arith, h)) ∙ ap (λ p. filled p c n m a) e

-- The `n` bytes at an address as a number, the lowest byte first.
unfoldable pub load_number : ℕ → ℕ → (ℕ → ℕ) → ℕ
load_number zero p m = 0
load_number (suc n) p m = m p + 256 * load_number n (p + 1) m

-- The lowest `n` bytes of a number, stored at an address in the same order.
unfoldable pub store_number : ℕ → ℕ → ℕ → (ℕ → ℕ) → ℕ → ℕ
store_number zero p v m = m
store_number (suc n) p v m = store_number n (p + 1) (v / 256) (update m p (v % 256))

-- The number has no more than `n` bytes.
abbrev pub Fits : ℕ → ℕ → Type 0
Fits zero v = v ≡ 0
Fits (suc n) v = Fits n (v / 256)

pub store_number-other :
    (n p v : ℕ) (m : ℕ → ℕ) (a : ℕ) → (a < p) ⊎ (p + n ≤ a) → store_number n p v m a ≡ m a
unfolding store_number
store_number-other zero p v m a h = refl
store_number-other (suc n) p v m a h =
    store_number-other n (p + 1) (v / 256) (update m p (v % 256)) a (ground (arith, h))
    ∙ update_ne m p (v % 256) a (λ e. omega (arith, e, h))

pub load-store_number :
    (n p v : ℕ) (m : ℕ → ℕ) → Fits n v → load_number n p (store_number n p v m) ≡ v
unfolding load_number store_number
load-store_number zero p v m h = sym h
load-store_number (suc n) p v m h =
    let m' = update m p (v % 256) in
    let first : store_number n (p + 1) (v / 256) m' p ≡ v % 256 =
      store_number-other n (p + 1) (v / 256) m' p (inl (omega arith)) ∙ update_eq m p (v % 256) in
    omega (arith, first, load-store_number n (p + 1) (v / 256) m' h)

pub load_number_ext :
    (n p : ℕ) (m m' : ℕ → ℕ)
    → ((i : ℕ) → i < n → m (p + i) ≡ m' (p + i))
    → load_number n p m ≡ load_number n p m'
unfolding load_number
load_number_ext zero p m m' h = refl
load_number_ext (suc n) p m m' h =
    let rest = load_number_ext n (p + 1) m m' (λ i lt.
      let e : p + 1 + i ≡ p + suc i = omega arith in
      ap m e ∙ h (suc i) (omega (arith, lt)) ∙ ap m' (sym e)) in
    let e : p ≡ p + 0 = omega arith in
    omega (arith, rest, ap m e ∙ h 0 (omega arith) ∙ ap m' (sym e))
