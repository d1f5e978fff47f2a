-- ===== src/File/Chunk.antt =====
-- `sys_read` of kernel/src/fs/vfs/file.c: the bytes of one chunk, and how the chunks add up.
use pros.Common.{
  ℕ, zero, suc, ◌+◌, ◌-◌, ◌≤◌, ◌<◌, ◌≡◌, ◌⊎◌, inl, inr, refl, sym, ap, ◌∙◌, ◌&&◌, Option, some,
  List, [], ◌∷◌, length, get_or, add64, u64_mod, false, take, drop, ltb, leb, if◌then◌else◌, Res,
  ok, Bool-cases, arith, length-take, get_or-drop,
}
use pros.Memory.Move.{copied}
use pros.Ramfs.{has_flag}
use pros.Vfs.Node.{Nodes}
use pros.File.{Files, set_file, vfs_chardevice}
use pros.File.Io.{copy_buffer_size, more, store, advance}

get_or-take {ℓ} :
    {A : Type ℓ} (k : ℕ) (xs : List A) (i : ℕ) (d : A)
    → i < k
    → get_or (take k xs) i d ≡ get_or xs i d
get_or-take zero xs i d h = absurd (omega arith)
get_or-take (suc k) [] i d h = refl
get_or-take (suc k) (x ∷ xs) zero d h = refl
get_or-take (suc k) (x ∷ xs) (suc i) d h = get_or-take k xs i d (omega arith)

-- The byte at `a` after `n` bytes of the content from `offset` on have been put at `p`.
abbrev pub with_bytes : ℕ → ℕ → List ℕ → ℕ → (ℕ → ℕ) → ℕ → ℕ
with_bytes p n content offset m a =
    if leb p a && ltb a (p + n) then get_or content (offset + (a - p)) 0 else m a

-- A chunk in the buffer, copied out.
pub copied_chunk :
    (p chunk k offset : ℕ) (content : List ℕ) (m : ℕ → ℕ) (a : ℕ)
    → k ≤ copy_buffer_size
    → (a < chunk) ⊎ (chunk + copy_buffer_size ≤ a)
    → copied p chunk
        (length (take k (drop offset content)))
        (store chunk (take k (drop offset content)) m)
        a
      ≡ with_bytes p (length (take k (drop offset content))) content offset m a
copied_chunk p chunk k offset content m a small apart =
    let bytes = take k (drop offset content) in
    let len = length-take k (drop offset content) in
    elim (Bool-cases (leb p a && ltb a (p + length bytes))) [
      | inl e ↦
          let inside : a - p < length bytes = ground (arith, e) in
          let at : store chunk bytes m (chunk + (a - p)) ≡ get_or bytes (a - p) 0 =
            stored chunk bytes m (a - p) inside in
          rw e (
            at
            ∙ get_or-take k (drop offset content) (a - p) 0 (omega (arith, len, inside))
            ∙ get_or-drop offset (a - p) content 0)
      | inr e ↦ rw e (ground (arith, apart, len))
    ]
  where
    stored :
        (chunk : ℕ) (bytes : List ℕ) (m : ℕ → ℕ) (i : ℕ)
        → i < length bytes
        → store chunk bytes m (chunk + i) ≡ get_or bytes i 0
    stored chunk bytes m i h = let e : chunk + i - chunk ≡ i = omega arith in rw e (ground arith)

-- Two pieces, one behind the other.
with_bytes-add :
    (p k n offset : ℕ) (content : List ℕ) (m m' : ℕ → ℕ) (a : ℕ)
    → m' a ≡ with_bytes p k content offset m a
    → with_bytes (p + k) n content (offset + k) m' a ≡ with_bytes p (k + n) content offset m a
with_bytes-add p k n offset content m m' a e = elim (Bool-cases (leb (p + k) a)) [
  | inl above ↦
      let same : offset + k + (a - (p + k)) ≡ offset + (a - p) = ground (arith, above) in
      rw same (ground (arith, above, e))
  | inr below ↦ ground (arith, below, e)
]

module _ {W : Type 0} where
  -- The end of a read that began at `s`: so many bytes, the file that far on, nothing else changed but
  -- the memory, which at `a` holds what was read there.
  abbrev pub ReadDone : ℕ → ℕ → ℕ → ℕ → List ℕ → ℕ → Files W → Option (Res ℕ × Files W) → Type 0
  ReadDone f p n total content a s r =
      (s' : Files W) × (r ≡ some (ok (total + n), s'))
      × ((s'.file f).offset ≡ (s.file f).offset + n)
      × (s'.mem a ≡ with_bytes p n content (s.file f).offset s.mem a)
      × (s'.world ≡ s.world)
      × (s'.fds ≡ s.fds)

  pub advance_lem :
      (nodes : Nodes W) (chunk f n total : ℕ) (s : Files W)
      → has_flag (nodes.node_flags (s.file f).node s.world) vfs_chardevice ≡ false
      → (s.file f).offset + n < u64_mod
      → advance nodes chunk f n total s
        ≡ (more (total + n), set_file f (record (s.file f) { offset = (s.file f).offset + n }) s)
  unfolding advance
  advance_lem nodes chunk f n total s flag below =
      let sum : add64 (s.file f).offset n ≡ (s.file f).offset + n = omega arith in
      rw (flag, sum) refl

  -- The state after a chunk of `k` bytes, `m` being the memory then.
  abbrev pub onward : ℕ → W → ℕ → (ℕ → ℕ) → Files W → Files W
  onward f w k m s =
      set_file f (record (s.file f) { offset = (s.file f).offset + k })
        (record s { world = w; mem = m })

  module _ (f buf a : ℕ) (content : List ℕ) where
    -- Nothing more is read.
    pub done_here :
        (total n : ℕ) (s : Files W) (r : Option (Res ℕ × Files W))
        → n ≡ 0
        → r ≡ some (ok total, s)
        → ReadDone f (buf + total) n total content a s r
    done_here total n s r z e =
        let t : total + n ≡ total = omega arith in
        (s, e ∙ ap (λ x. some (ok x, s)) (sym t), omega arith, ground (arith, z), refl, refl)

    -- One chunk, and what follows it.
    pub done_more :
        (total k n rest : ℕ) (s s1 : Files W) (r : Option (Res ℕ × Files W))
        → n ≡ k + rest
        → (s1.file f).offset ≡ (s.file f).offset + k
        → s1.mem a ≡ with_bytes (buf + total) k content (s.file f).offset s.mem a
        → s1.world ≡ s.world
        → s1.fds ≡ s.fds
        → ReadDone f (buf + (total + k)) rest (total + k) content a s1 r
        → ReadDone f (buf + total) n total content a s r
    done_more total k n rest s s1 r split eo em ew ef (s', e, eo', em', ew', ef') =
        let sum : total + k + rest ≡ total + n = omega arith in
        let place : buf + (total + k) ≡ buf + total + k = omega arith in
        let mem : s'.mem a ≡ with_bytes (buf + total) n content (s.file f).offset s.mem a =
          em'
          ∙ ap (λ x. with_bytes x rest content (s1.file f).offset s1.mem a) place
          ∙ ap (λ x. with_bytes (buf + total + k) rest content x s1.mem a) eo
          ∙ with_bytes-add (buf + total) k rest (s.file f).offset content s.mem s1.mem a em
          ∙ ap (λ x. with_bytes (buf + total) x content (s.file f).offset s.mem a) (sym split) in
        (s', e ∙ ap (λ x. some (ok x, s')) sum, omega (arith, eo, eo'), mem, ew' ∙ ew, ef' ∙ ef)
