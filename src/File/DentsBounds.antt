-- ===== src/File/DentsBounds.antt =====
-- `sys_getdents64` of kernel/src/fs/vfs/file.c stays within the caller's buffer.
use pros.Common.{
  ℕ, zero, suc, ◌+◌, ◌-◌, ◌/◌, ◌%◌, ◌^◌, ◌≤◌, ◌<◌, ◌≡◌, ◌⊎◌, inl, inr, refl, ◌∙◌, Option, none,
  some, ◌∷◌, ◌++◌, length, length-append, length-replicate, replicate, add64, u64_mod, ltb, ◌==◌,
  Res, ok, err, Bool-cases, Option-cases, ltb→ge, arith,
}
use pros.Memory.{ℤ}
use pros.Memory.Move.{copied}
use pros.Uaccess.{efault, vmm_addr_split, copy_to_user}
use pros.Uaccess.Bounds.{copy_to_user-Copies}
use pros.Ramfs.{einval, has_flag, vfs_directory}
use pros.Vfs.Node.{VfsDirent, VfsOps, Nodes}
use pros.File.{Files, fd_slot, file_at}
use pros.File.Io.{Round, stop, more, resume, or_done, store}
use pros.File.Dents.{
  dirent_reclen, dirent_bytes, dirent_copied, dirent_got, dirent_loop, dirent_ops, dirent_open,
  dirent_slot, sys_getdents64, le_bytes, dirent_type, eio,
}

length-le_bytes : (n x : ℕ) → length (le_bytes n x) ≡ n
unfolding le_bytes
length-le_bytes zero x = omega arith
length-le_bytes (suc n) x = omega (arith, length-le_bytes n (x / 256))

length-dirent_bytes :
    (offset : ℕ) (d : VfsDirent) → length (dirent_bytes offset d) ≡ dirent_reclen d
unfolding dirent_bytes
length-dirent_bytes offset d =
    let pad = replicate (dirent_reclen d - (19 + (length d.name + 1))) 0 in
    let name = d.name ++ (0 ∷ pad) in
    let head = le_bytes 2 (dirent_reclen d) in
    let next = le_bytes 8 (offset + 1) in
    omega (
      arith,
      length-append (le_bytes 8 d.inode) (next ++ (head ++ (dirent_type d.flags ∷ name))),
      length-append next (head ++ (dirent_type d.flags ∷ name)),
      length-append head (dirent_type d.flags ∷ name),
      length-append d.name (0 ∷ pad),
      length-replicate {A = ℕ} (dirent_reclen d - (19 + (length d.name + 1))) 0,
      length-le_bytes 8 d.inode,
      length-le_bytes 8 (offset + 1),
      length-le_bytes 2 (dirent_reclen d),
    )

-- The kernel's buffer for one record.
abbrev pub dirent_buffer_size : ℕ
dirent_buffer_size = 152

module _ {W : Type 0} where
  -- The call ends with at most `count` bytes, and the byte at `a` as it was.
  abbrev pub Within : ℕ → ℕ → Files W → Option (Res ℕ × Files W) → Type 0
  Within count a s none = ⊥
  Within count a s (some (ok n, s')) = (n ≤ count) × (s'.mem a ≡ s.mem a)
  Within count a s (some (err e, s')) = s'.mem a ≡ s.mem a

  abbrev RoundWithin : ℕ → ℕ → ℕ → ℕ → Files W → Round × Files W → Type 0
  RoundWithin dirp count a before s (stop (ok n), s') = (n ≤ count) × (s'.mem a ≡ s.mem a)
  RoundWithin dirp count a before s (stop (err e), s') = s'.mem a ≡ s.mem a
  RoundWithin dirp count a before s (more total, s') =
      (before < total) × (total ≤ count) × (dirp + total < u64_mod) × (s'.mem a ≡ s.mem a)

  Within-trans :
      (count a : ℕ) (s s1 : Files W) (r : Option (Res ℕ × Files W))
      → s1.mem a ≡ s.mem a
      → Within count a s1 r
      → Within count a s r
  Within-trans count a s s1 none e h = h
  Within-trans count a s s1 (some (ok n, s')) e h = (h.0, h.1 ∙ e)
  Within-trans count a s s1 (some (err x, s')) e h = h ∙ e

  resume-Within :
      (dirp count a before : ℕ) (s : Files W) (loop : ℕ → Files W → Option (Res ℕ × Files W))
      (r : Round × Files W)
      → ((total : ℕ) (s' : Files W)
          → before < total
          → total ≤ count
          → dirp + total < u64_mod
          → Within count a s' (loop total s'))
      → RoundWithin dirp count a before s r
      → Within count a s (resume loop r)
  unfolding resume
  resume-Within dirp count a before s loop (stop (ok n), s') rest h = h
  resume-Within dirp count a before s loop (stop (err e), s') rest h = h
  resume-Within dirp count a before s loop (more total, s') rest h =
      Within-trans count a s s' (loop total s') h.3 (rest total s' h.0 h.1 h.2)

  or_done-Within :
      (dirp count a before total e : ℕ) (s s' : Files W)
      → total ≤ count
      → s'.mem a ≡ s.mem a
      → RoundWithin dirp count a before s (stop (or_done total e), s')
  or_done-Within dirp count a before total e s s' h same = elim (Bool-cases (ltb 0 total)) [
    | inl t ↦ rw t (h, same)
    | inr t ↦ rw t same
  ]

module _ {W : Type 0} (nodes : Nodes W) (chunk dirp count a : ℕ) (high : vmm_addr_split ≤ chunk)
    (fits : chunk + dirent_buffer_size < u64_mod)
    (kernel : (a < chunk) ⊎ (chunk + dirent_buffer_size ≤ a))
    (user : (a < dirp) ⊎ (dirp + count ≤ a)) where
  stored_apart :
      (offset : ℕ) (d : VfsDirent) (m : ℕ → ℕ)
      → length d.name < 128
      → store chunk (dirent_bytes offset d) m a ≡ m a
  stored_apart offset d m short = ground (arith, length-dirent_bytes offset d, kernel, short)

  dirent_copied-Within :
      (f total reclen : ℕ) (s s1 : Files W)
      → total + reclen ≤ count
      → dirp + total < u64_mod
      → 0 < reclen
      → reclen ≤ dirent_buffer_size
      → s1.mem a ≡ s.mem a
      → RoundWithin dirp count a total s (
          dirent_copied nodes chunk f reclen total s1
            (copy_to_user (add64 dirp total) chunk reclen s1.mem))
  unfolding dirent_copied
  dirent_copied-Within f total reclen s s1 room below some_bytes small same =
      let sum : add64 dirp total ≡ dirp + total = omega arith in
      elim (copy_to_user-Copies (dirp + total) chunk reclen s1.mem below high (omega arith)) [
        | inl (beyond, bad) ↦
            rw (sum, bad, dirent_copied)
              (or_done-Within dirp count a total total efault s s1 (omega arith) same)
        | inr (m, inside, good, copy) ↦
            let out : copied (dirp + total) chunk reclen s1.mem a ≡ s1.mem a =
              ground (arith, user) in
            rw (sum, good, dirent_copied)
              (omega (arith, some_bytes), room, omega (arith, inside), copy a ∙ out ∙ same)
      ]

  dirent_got-Within :
      (f total : ℕ) (s : Files W) (got : Res (Option VfsDirent))
      → total ≤ count
      → dirp + total < u64_mod
      → ((d : VfsDirent) → got ≡ ok (some d) → length d.name < 128)
      → RoundWithin dirp count a total s (dirent_got nodes chunk f dirp count total s got)
  unfolding dirent_got
  dirent_got-Within f total s (err e) le below names =
      or_done-Within dirp count a total total eio s s le refl
  dirent_got-Within f total s (ok none) le below names = (le, refl)
  dirent_got-Within f total s (ok (some d)) le below names =
      let short = names d refl in
      let s1 = record s { mem = store chunk (dirent_bytes (s.file f).offset d) s.mem } in
      elim (Bool-cases (ltb count (total + dirent_reclen d))) [
        | inl e ↦ rw e (or_done-Within dirp count a total total einval s s le refl)
        | inr e ↦
            let room = ltb→ge count (total + dirent_reclen d) e in
            rw e (
              dirent_copied-Within f total (dirent_reclen d) s s1 room below (omega arith)
                (omega (arith, short)) (stored_apart (s.file f).offset d s.mem short))
      ]

  module _ (readdir : ℕ → ℕ → W → Res (Option VfsDirent))
      (names : (n i : ℕ) (w : W) (d : VfsDirent)
        → readdir n i w ≡ ok (some d)
        → length d.name < 128) where
    dirent_loop-Within :
        (fuel f total : ℕ) (s : Files W)
        → total ≤ count
        → dirp + total < u64_mod
        → count - total < fuel
        → Within count a s (dirent_loop nodes chunk readdir fuel f dirp count total s)
    unfolding dirent_loop
    dirent_loop-Within zero f total s le below enough = absurd (omega arith)
    dirent_loop-Within (suc fuel) f total s le below enough =
        let got = readdir (s.file f).node ((s.file f).offset % 2 ^ 32) s.world in
        resume-Within dirp count a total s (dirent_loop nodes chunk readdir fuel f dirp count)
          (dirent_got nodes chunk f dirp count total s got)
          (λ t s' b h k. dirent_loop-Within fuel f t s' h k (omega (arith, b, h, enough)))
          (dirent_got-Within f total s got le below
            (names (s.file f).node ((s.file f).offset % 2 ^ 32) s.world))

-- The names that a driver gives are shorter than 128 bytes, as `struct vfs_dirent` has room for.
abbrev pub ShortNames : {W : Type 0} → Nodes W → Type 0
ShortNames {W} nodes =
    (node n i : ℕ) (w w' : W) (ops : VfsOps W) (readdir : ℕ → ℕ → W → Res (Option VfsDirent))
    (d : VfsDirent)
    → nodes.node_ops node w ≡ some ops
    → ops.readdir ≡ some readdir
    → readdir n i w' ≡ ok (some d)
    → length d.name < 128

module _ {W : Type 0} (nodes : Nodes W) (chunk dirp count a : ℕ) (high : vmm_addr_split ≤ chunk)
    (fits : chunk + dirent_buffer_size < u64_mod)
    (kernel : (a < chunk) ⊎ (chunk + dirent_buffer_size ≤ a))
    (user : (a < dirp) ⊎ (dirp + count ≤ a)) (names : ShortNames nodes) (below : dirp < u64_mod)
    (fuel : ℕ) (s : Files W) (enough : count < fuel) where
  dirent_ops-Within :
      (f : ℕ) (o : Option (VfsOps W))
      → nodes.node_ops (s.file f).node s.world ≡ o
      → Within count a s (dirent_ops nodes chunk fuel f dirp count o s)
  unfolding dirent_ops
  dirent_ops-Within f none e = refl
  dirent_ops-Within f (some ops) e = elim (Option-cases ops.readdir) [
    | inl e' ↦ rw (e', dirent_ops) refl
    | inr (readdir, e') ↦
        rw (e', dirent_ops)
          (dirent_loop-Within nodes chunk dirp count a high fits kernel user readdir
            (λ n i w d k. names (s.file f).node n i s.world w ops readdir d e e' k) fuel f 0 s
            (omega arith) (omega (arith, below)) (omega (arith, enough)))
  ]

  dirent_open-Within :
      (o : Option ℕ) → Within count a s (dirent_open nodes chunk fuel dirp count o s)
  unfolding dirent_open
  dirent_open-Within none = refl
  dirent_open-Within (some f) = elim (Bool-cases ((s.file f).node == 0)) [
    | inl e ↦ rw e refl
    | inr e ↦
        elim (Bool-cases (has_flag (nodes.node_flags (s.file f).node s.world) vfs_directory)) [
          | inl e' ↦ rw (e, e') (dirent_ops-Within f (nodes.node_ops (s.file f).node s.world) refl)
          | inr e' ↦ rw (e, e') refl
        ]
  ]

  dirent_slot-Within :
      (o : Option ℕ) → Within count a s (dirent_slot nodes chunk fuel dirp count o s)
  unfolding dirent_slot
  dirent_slot-Within none = refl
  dirent_slot-Within (some fd) = elim (Bool-cases (dirp == 0)) [
    | inl e ↦ rw e refl
    | inr e ↦ rw e (dirent_open-Within (file_at s.fds fd))
  ]

-- Whatever the driver does, as long as its names are shorter than 128 bytes: `sys_getdents64` comes to
-- an end, returns at most `count`, and changes no byte outside the caller's buffer of `count` bytes and
-- the kernel's buffer for one record, which lies above the split. The fuel is above `count`.
pub sys_getdents64-Within :
    {W : Type 0} (nodes : Nodes W) (chunk dirp count a fuel : ℕ) (fd : ℤ) (s : Files W)
    → vmm_addr_split ≤ chunk
    → chunk + dirent_buffer_size < u64_mod
    → (a < chunk) ⊎ (chunk + dirent_buffer_size ≤ a)
    → (a < dirp) ⊎ (dirp + count ≤ a)
    → dirp < u64_mod
    → ShortNames nodes
    → count < fuel
    → Within count a s (sys_getdents64 nodes chunk fuel fd dirp count s)
unfolding sys_getdents64
sys_getdents64-Within nodes chunk dirp count a fuel fd s high fits kernel user below names enough =
    dirent_slot-Within nodes chunk dirp count a high fits kernel user names below fuel s enough
      (fd_slot fd)
