-- ===== src/File/Ends.antt =====
-- The loops of `sys_read` and `sys_write` of kernel/src/fs/vfs/file.c come to an end.
use pros.Common.{
  ℕ, zero, suc, ◌-◌, add64, ◌<◌, ◌≡◌, inl, inr, refl, Option, none, some, Option-cases, ltb→lt,
  List, length, ltb, ◌==◌, Res, ok, err, Bool-cases, ==→ne, arith,
}
use pros.Memory.{ℤ}
use pros.Uaccess.{efault, copy_from_user, copy_to_user}
use pros.Ramfs.{has_flag}
use pros.Vfs.Node.{VfsOps, Nodes}
use pros.File.{Files, ebadf, enosys, fd_slot, file_at, vfs_chardevice}
use pros.File.Io.{
  Round, store, load, stop, more, chunk_len, resume, advance, copied_out, read_got, read_loop,
  read_ops, read_open, read_slot, sys_read, wrote, copied_in, write_loop, write_ops, write_open,
  write_slot, sys_write, eacces, o_wronly, o_rdwr,
}

module _ {W : Type 0} where
  abbrev pub Ends : Option (Res ℕ × Files W) → Type 0
  Ends r = (result : Res ℕ) × (s' : Files W) × (r ≡ some (result, s'))

  -- A round stops, or has done more than before.
  abbrev Moves : ℕ → Round × Files W → Type 0
  Moves total (stop r, s) = Unit
  Moves total (more t, s) = total < t

  resume-Ends :
      (count fuel total : ℕ) (loop : ℕ → Files W → Option (Res ℕ × Files W)) (r : Round × Files W)
      → count - total < suc fuel
      → total < count
      → ((t : ℕ) (s : Files W) → count - t < fuel → Ends (loop t s))
      → Moves total r
      → Ends (resume loop r)
  unfolding resume
  resume-Ends count fuel total loop (stop r, s) enough left ends moves = (r, s, refl)
  resume-Ends count fuel total loop (more t, s) enough left ends moves =
      ends t s (omega (arith, moves))

module _ {W : Type 0} (nodes : Nodes W) (chunk : ℕ) where
  advance-Moves :
      (f n total : ℕ) (s : Files W) → 0 < n → Moves total (advance nodes chunk f n total s)
  unfolding advance
  advance-Moves f n total s h =
      elim (Bool-cases (has_flag (nodes.node_flags (s.file f).node s.world) vfs_chardevice)) [
        | inl e ↦ rw e tt
        | inr e ↦ rw e (omega (arith, h))
      ]

  copied_out-Moves :
      (f n total : ℕ) (s : Files W) (r : Res (ℕ → ℕ))
      → 0 < n
      → Moves total (copied_out nodes chunk f n total s r)
  unfolding copied_out
  copied_out-Moves f n total s (err e) h = tt
  copied_out-Moves f n total s (ok m) h = advance-Moves f n total (record s { mem = m }) h

  read_got-Moves :
      (f buf total : ℕ) (s : Files W) (got : Res (List ℕ) × W)
      → Moves total (read_got nodes chunk f buf total s got)
  unfolding read_got
  read_got-Moves f buf total s (err e, w) = tt
  read_got-Moves f buf total s (ok bytes, w) = elim (Bool-cases (length bytes == 0)) [
    | inl e ↦ rw e tt
    | inr e ↦
        let ne = ==→ne (length bytes) 0 e in
        rw e (
          copied_out-Moves f (length bytes) total
            (record s { world = w; mem = store chunk bytes s.mem })
            (copy_to_user (add64 buf total) chunk (length bytes) (store chunk bytes s.mem))
            (omega (arith, ne)))
  ]

  wrote-Moves :
      (f total : ℕ) (s : Files W) (r : Res ℕ × W) → Moves total (wrote nodes chunk f total s r)
  unfolding wrote
  wrote-Moves f total s (err e, w) = tt
  wrote-Moves f total s (ok n, w) = elim (Bool-cases (n == 0)) [
    | inl e ↦ rw e tt
    | inr e ↦
        let ne = ==→ne n 0 e in
        rw e (advance-Moves f n total (record s { world = w }) (omega (arith, ne)))
  ]

  copied_in-Moves :
      (write : ℕ → ℕ → List ℕ → W → Res ℕ × W) (f n total : ℕ) (s : Files W) (r : Res (ℕ → ℕ))
      → Moves total (copied_in nodes chunk write f n total s r)
  unfolding copied_in
  copied_in-Moves write f n total s (err e) = tt
  copied_in-Moves write f n total s (ok m) =
      wrote-Moves f total (record s { mem = m })
        (write (s.file f).node (s.file f).offset (load chunk n m) s.world)

  read_loop-Ends :
      (read : ℕ → ℕ → ℕ → W → Res (List ℕ) × W) (f buf count fuel total : ℕ) (s : Files W)
      → count - total < fuel
      → Ends (read_loop nodes chunk read fuel f buf count total s)
  unfolding read_loop
  read_loop-Ends read f buf count zero total s enough = absurd (omega arith)
  read_loop-Ends read f buf count (suc fuel) total s enough = elim (Bool-cases (ltb total count)) [
    | inr e ↦ rw (e, read_loop) (ok total, s, refl)
    | inl e ↦
        let got = read (s.file f).node (s.file f).offset (chunk_len count total) s.world in
        rw (e, read_loop)
          (resume-Ends count fuel total (read_loop nodes chunk read fuel f buf count)
            (read_got nodes chunk f buf total s got) enough (ltb→lt total count e)
            (λ t s' k. read_loop-Ends read f buf count fuel t s' k)
            (read_got-Moves f buf total s got))
  ]

  write_loop-Ends :
      (write : ℕ → ℕ → List ℕ → W → Res ℕ × W) (f buf count fuel total : ℕ) (s : Files W)
      → count - total < fuel
      → Ends (write_loop nodes chunk write fuel f buf count total s)
  unfolding write_loop
  write_loop-Ends write f buf count zero total s enough = absurd (omega arith)
  write_loop-Ends write f buf count (suc fuel) total s enough =
      elim (Bool-cases (ltb total count)) [
        | inr e ↦ rw (e, write_loop) (ok total, s, refl)
        | inl e ↦
            let n = chunk_len count total in
            let copy = copy_from_user chunk (add64 buf total) n s.mem in
            rw (e, write_loop)
              (resume-Ends count fuel total (write_loop nodes chunk write fuel f buf count)
                (copied_in nodes chunk write f n total s copy) enough (ltb→lt total count e)
                (λ t s' k. write_loop-Ends write f buf count fuel t s' k)
                (copied_in-Moves write f n total s copy))
      ]

  read_ops-Ends :
      (fuel f buf count : ℕ) (ops : Option (VfsOps W)) (s : Files W)
      → count < fuel
      → Ends (read_ops nodes chunk fuel f buf count ops s)
  unfolding read_ops
  read_ops-Ends fuel f buf count none s h = (err enosys, s, refl)
  read_ops-Ends fuel f buf count (some ops) s h = elim (Option-cases ops.read) [
    | inl e ↦ rw (e, read_ops) (err enosys, s, refl)
    | inr (read, e) ↦ rw (e, read_ops) (read_loop-Ends read f buf count fuel 0 s (omega arith))
  ]

  write_ops-Ends :
      (fuel f buf count : ℕ) (ops : Option (VfsOps W)) (s : Files W)
      → count < fuel
      → Ends (write_ops nodes chunk fuel f buf count ops s)
  unfolding write_ops
  write_ops-Ends fuel f buf count none s h = (err enosys, s, refl)
  write_ops-Ends fuel f buf count (some ops) s h = elim (Option-cases ops.write) [
    | inl e ↦ rw (e, write_ops) (err enosys, s, refl)
    | inr (write, e) ↦ rw (e, write_ops) (write_loop-Ends write f buf count fuel 0 s (omega arith))
  ]

  read_open-Ends :
      (fuel buf count : ℕ) (o : Option ℕ) (s : Files W)
      → count < fuel
      → Ends (read_open nodes chunk fuel buf count o s)
  unfolding read_open
  read_open-Ends fuel buf count none s h = (err ebadf, s, refl)
  read_open-Ends fuel buf count (some f) s h =
      read_ops-Ends fuel f buf count (nodes.node_ops (s.file f).node s.world) s h

  write_open-Ends :
      (fuel buf count : ℕ) (o : Option ℕ) (s : Files W)
      → count < fuel
      → Ends (write_open nodes chunk fuel buf count o s)
  unfolding write_open
  write_open-Ends fuel buf count none s h = (err ebadf, s, refl)
  write_open-Ends fuel buf count (some f) s h =
      let there = write_ops-Ends fuel f buf count (nodes.node_ops (s.file f).node s.world) s h in
      elim (Bool-cases (has_flag (s.file f).flags o_wronly)) [
        | inl e ↦ rw e there
        | inr e ↦ elim (Bool-cases (has_flag (s.file f).flags o_rdwr)) [
          | inl e' ↦ rw (e, e') there
          | inr e' ↦ rw (e, e') (err eacces, s, refl)
        ]
      ]

  read_slot-Ends :
      (fuel buf count : ℕ) (slot : Option ℕ) (s : Files W)
      → count < fuel
      → Ends (read_slot nodes chunk fuel buf count slot s)
  unfolding read_slot
  read_slot-Ends fuel buf count none s h = (err ebadf, s, refl)
  read_slot-Ends fuel buf count (some fd) s h = elim (Bool-cases (buf == 0)) [
    | inl e ↦ rw e (err efault, s, refl)
    | inr e ↦ rw e (read_open-Ends fuel buf count (file_at s.fds fd) s h)
  ]

  write_slot-Ends :
      (fuel buf count : ℕ) (slot : Option ℕ) (s : Files W)
      → count < fuel
      → Ends (write_slot nodes chunk fuel buf count slot s)
  unfolding write_slot
  write_slot-Ends fuel buf count none s h = (err ebadf, s, refl)
  write_slot-Ends fuel buf count (some fd) s h = elim (Bool-cases (buf == 0)) [
    | inl e ↦ rw e (err efault, s, refl)
    | inr e ↦ rw e (write_open-Ends fuel buf count (file_at s.fds fd) s h)
  ]

-- Whatever the driver does, `sys_read` and `sys_write` come to an end: their loops go round at most
-- once for each byte of `count`, and once more.
pub sys_read-Ends :
    {W : Type 0} (nodes : Nodes W) (chunk fuel buf count : ℕ) (fd : ℤ) (s : Files W)
    → count < fuel
    → Ends (sys_read nodes chunk fuel fd buf count s)
      × Ends (sys_write nodes chunk fuel fd buf count s)
unfolding sys_read sys_write
sys_read-Ends nodes chunk fuel buf count fd s h = (
  read_slot-Ends nodes chunk fuel buf count (fd_slot fd) s h,
  write_slot-Ends nodes chunk fuel buf count (fd_slot fd) s h,
)
