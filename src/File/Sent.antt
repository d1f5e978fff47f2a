-- ===== src/File/Sent.antt =====
-- `sys_write` of kernel/src/fs/vfs/file.c: the bytes of one chunk, and how the chunks add up.
use pros.Common.{
  ℕ, zero, suc, ◌+◌, ◌-◌, ◌≤◌, ◌<◌, ◌≡◌, inl, inr, refl, ap, ◌∙◌, ◌&&◌, Option, some, length,
  get_or, ltb, leb, if◌then◌else◌, Res, ok, Bool-cases, arith,
}
use pros.Memory.Move.{copied}
use pros.Uaccess.{vmm_addr_split}
use pros.File.{Files}
use pros.File.Io.{store, load}

pub length-load : (p n : ℕ) (m : ℕ → ℕ) → length (load p n m) ≡ n
unfolding load
length-load p zero m = refl
length-load p (suc n) m = ap suc (length-load (p + 1) n m)

get_or-load : (p n i : ℕ) (m : ℕ → ℕ) → i < n → get_or (load p n m) i 0 ≡ m (p + i)
unfolding load
get_or-load p zero i m h = absurd (omega arith)
get_or-load p (suc n) zero m h = let e : p ≡ p + 0 = omega arith in ap m e
get_or-load p (suc n) (suc i) m h =
    let e : p + 1 + i ≡ p + suc i = omega arith in get_or-load (p + 1) n i m (omega arith) ∙ ap m e

-- The byte at position `i` of a file, after the `n` bytes at `p` of the memory have been put at
-- `offset`.
abbrev pub sent : ℕ → ℕ → ℕ → (ℕ → ℕ) → (ℕ → ℕ) → ℕ → ℕ
sent p n offset m old i = if leb offset i && ltb i (offset + n) then m (p + (i - offset)) else old i

-- A chunk, copied into the buffer and put into the file.
pub sent_chunk :
    (p chunk n offset : ℕ) (m m' old : ℕ → ℕ) (i : ℕ)
    → ((a : ℕ) → m' a ≡ copied chunk p n m a)
    → store offset (load chunk n m') old i ≡ sent p n offset m old i
sent_chunk p chunk n offset m m' old i copy =
    let len = length-load chunk n m' in
    elim (Bool-cases (leb offset i && ltb i (offset + n))) [
      | inl e ↦
          let inside : i - offset < n = ground (arith, e) in
          let back : p + (chunk + (i - offset) - chunk) ≡ p + (i - offset) = omega arith in
          let here : copied chunk p n m (chunk + (i - offset)) ≡ m (p + (i - offset)) =
            ground (arith, inside, ap m back) in
          rw (len, e)
            (get_or-load chunk n (i - offset) m' inside ∙ copy (chunk + (i - offset)) ∙ here)
      | inr e ↦ rw (len, e) refl
    ]

-- Two pieces, one behind the other.
pub sent-add :
    (p k n offset : ℕ) (m old mid : ℕ → ℕ) (i : ℕ)
    → mid i ≡ sent p k offset m old i
    → sent (p + k) n (offset + k) m mid i ≡ sent p (k + n) offset m old i
sent-add p k n offset m old mid i e = elim (Bool-cases (leb (offset + k) i)) [
  | inl above ↦
      let same : p + k + (i - (offset + k)) ≡ p + (i - offset) = ground (arith, above) in
      rw same (ground (arith, above, e))
  | inr below ↦ ground (arith, below, e)
]

-- Only the bytes of the user matter.
pub sent-kept :
    (p n offset : ℕ) (m m' old : ℕ → ℕ) (i : ℕ)
    → p + n ≤ vmm_addr_split
    → ((b : ℕ) → b < vmm_addr_split → m b ≡ m' b)
    → sent p n offset m old i ≡ sent p n offset m' old i
sent-kept p n offset m m' old i low kept = elim (Bool-cases (leb offset i && ltb i (offset + n))) [
  | inl e ↦
      let inside : p + (i - offset) < vmm_addr_split = ground (arith, e, low) in
      rw e (kept (p + (i - offset)) inside)
  | inr e ↦ rw e refl
]

module _ {W : Type 0} (view : W → ℕ → ℕ) where
  -- The end of a write that began at `s`: so many bytes, the file that far on, the bytes of the user in
  -- the content that `view` reads off, and nothing else changed but the memory of the kernel.
  abbrev pub WriteDone : ℕ → ℕ → ℕ → ℕ → Files W → Option (Res ℕ × Files W) → Type 0
  WriteDone f p n total s r =
      (s' : Files W) × (r ≡ some (ok (total + n), s'))
      × ((s'.file f).offset ≡ (s.file f).offset + n)
      × ((i : ℕ) → view s'.world i ≡ sent p n (s.file f).offset s.mem (view s.world) i)
      × ((b : ℕ) → b < vmm_addr_split → s'.mem b ≡ s.mem b)
      × (s'.fds ≡ s.fds)
