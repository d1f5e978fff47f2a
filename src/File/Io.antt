-- ===== src/File/Io.antt =====
-- kernel/src/fs/vfs/file.c, reading and writing in chunks through a buffer of the kernel. The loops run
-- on fuel.
use pros.Common.{
  ℕ, zero, suc, ◌+◌, ◌-◌, ◌&&◌, Option, none, some, List, [], ◌∷◌, length, get_or, add64, ltb, leb,
  ◌==◌, if◌then◌else◌, Res, ok, err,
}
use pros.Memory.{ℤ}
use pros.Uaccess.{efault, copy_from_user, copy_to_user}
use pros.Ramfs.{has_flag}
use pros.Vfs.Node.{VfsOps, Nodes}
use pros.File.{Files, ebadf, enosys, fd_slot, file_at, set_file, vfs_chardevice}

abbrev pub copy_buffer_size : ℕ
copy_buffer_size = 512

abbrev pub eacces : ℕ
eacces = 13

abbrev pub o_wronly : ℕ
o_wronly = 1

abbrev pub o_rdwr : ℕ
o_rdwr = 2

-- What a round of a loop leads to: the result of the call, or another round with so many bytes done.
pub data Round : Type 0 where
  stop : Res ℕ → Round
  more : ℕ → Round

-- The length of the next chunk.
abbrev pub chunk_len : ℕ → ℕ → ℕ
chunk_len count total =
    if ltb (count - total) copy_buffer_size then count - total else copy_buffer_size

-- The result where an error comes up: what is done already goes first.
abbrev pub or_done : ℕ → ℕ → Res ℕ
or_done total e = if ltb 0 total then ok total else err e

-- The memory with bytes stored at an address.
abbrev pub store : ℕ → List ℕ → (ℕ → ℕ) → ℕ → ℕ
store p bytes m a = if leb p a && ltb a (p + length bytes) then get_or bytes (a - p) 0 else m a

-- The `n` bytes at an address.
unfoldable pub load : ℕ → ℕ → (ℕ → ℕ) → List ℕ
load p zero m = []
load p (suc n) m = m p ∷ load (p + 1) n m

module _ {W : Type 0} where
  -- After a round: the end of the call, or the loop again.
  unfoldable pub resume :
      (ℕ → Files W → Option (Res ℕ × Files W)) → Round × Files W → Option (Res ℕ × Files W)
  resume loop (stop r, s) = some (r, s)
  resume loop (more total, s) = loop total s

-- `chunk` is the address of the buffer.
module _ {W : Type 0} (nodes : Nodes W) (chunk : ℕ) where
  -- On `n` bytes read or written: a character stream has no position, and ends the loop.
  unfoldable pub advance : ℕ → ℕ → ℕ → Files W → Round × Files W
  advance f n total s =
      let o = s.file f in
      if has_flag (nodes.node_flags o.node s.world) vfs_chardevice
      then (stop (ok (total + n)), s)
      else (more (total + n), set_file f (record o { offset = add64 o.offset n }) s)

  -- The rest of a round of `sys_read`, after `copy_to_user`.
  unfoldable pub copied_out : ℕ → ℕ → ℕ → Files W → Res (ℕ → ℕ) → Round × Files W
  unfolding advance
  copied_out f n total s (err e) = (stop (or_done total efault), s)
  copied_out f n total s (ok m) = advance f n total (record s { mem = m })

  -- The same, after the driver's `read`.
  unfoldable pub read_got : ℕ → ℕ → ℕ → Files W → Res (List ℕ) × W → Round × Files W
  unfolding copied_out
  read_got f buf total s (err e, w) =
      (stop (if total == 0 then err e else ok total), record s { world = w })
  read_got f buf total s (ok bytes, w) =
      let n = length bytes in
      let s' = record s { world = w; mem = store chunk bytes s.mem } in
      if n == 0
      then (stop (ok total), record s { world = w })
      else copied_out f n total s' (copy_to_user (add64 buf total) chunk n s'.mem)

  unfoldable pub read_loop :
      (ℕ → ℕ → ℕ → W → Res (List ℕ) × W) → ℕ → ℕ → ℕ → ℕ → ℕ → Files W → Option (Res ℕ × Files W)
  unfolding read_got resume
  read_loop read zero f buf count total s = none
  read_loop read (suc fuel) f buf count total s =
      let o = s.file f in
      let got = read o.node o.offset (chunk_len count total) s.world in
      let next = resume (read_loop read fuel f buf count) (read_got f buf total s got) in
      if ltb total count then next else some (ok total, s)

  -- From the driver's `read` on, if there is one.
  unfoldable pub read_ops : ℕ → ℕ → ℕ → ℕ → Option (VfsOps W) → Files W → Option (Res ℕ × Files W)
  unfolding read_loop
  read_ops fuel f buf count none s = some (err enosys, s)
  read_ops fuel f buf count (some ops) s = elim ops.read [
    | none ↦ some (err enosys, s)
    | some read ↦ read_loop read fuel f buf count 0 s
  ]

  unfoldable pub read_open : ℕ → ℕ → ℕ → Option ℕ → Files W → Option (Res ℕ × Files W)
  unfolding read_ops
  read_open fuel buf count none s = some (err ebadf, s)
  read_open fuel buf count (some f) s =
      read_ops fuel f buf count (nodes.node_ops (s.file f).node s.world) s

  unfoldable pub read_slot : ℕ → ℕ → ℕ → Option ℕ → Files W → Option (Res ℕ × Files W)
  unfolding read_open
  read_slot fuel buf count none s = some (err ebadf, s)
  read_slot fuel buf count (some fd) s =
      if buf == 0 then some (err efault, s) else read_open fuel buf count (file_at s.fds fd) s

  unfoldable pub sys_read : ℕ → ℤ → ℕ → ℕ → Files W → Option (Res ℕ × Files W)
  unfolding read_slot
  sys_read fuel fd buf count s = read_slot fuel buf count (fd_slot fd) s

  -- A round of `sys_write`, after the driver's `write`.
  unfoldable pub wrote : ℕ → ℕ → Files W → Res ℕ × W → Round × Files W
  unfolding advance
  wrote f total s (err e, w) =
      (stop (if total == 0 then err e else ok total), record s { world = w })
  wrote f total s (ok n, w) =
      let s' = record s { world = w } in
      if n == 0 then (stop (ok total), s') else advance f n total s'

  -- The same, after `copy_from_user` of `n` bytes.
  unfoldable pub copied_in :
      (ℕ → ℕ → List ℕ → W → Res ℕ × W) → ℕ → ℕ → ℕ → Files W → Res (ℕ → ℕ) → Round × Files W
  unfolding wrote load
  copied_in write f n total s (err e) = (stop (or_done total efault), s)
  copied_in write f n total s (ok m) =
      let o = s.file f in
      wrote f total (record s { mem = m }) (write o.node o.offset (load chunk n m) s.world)

  unfoldable pub write_loop :
      (ℕ → ℕ → List ℕ → W → Res ℕ × W) → ℕ → ℕ → ℕ → ℕ → ℕ → Files W → Option (Res ℕ × Files W)
  unfolding copied_in resume
  write_loop write zero f buf count total s = none
  write_loop write (suc fuel) f buf count total s =
      let n = chunk_len count total in
      let copy = copy_from_user chunk (add64 buf total) n s.mem in
      let next = resume (write_loop write fuel f buf count) (copied_in write f n total s copy) in
      if ltb total count then next else some (ok total, s)

  unfoldable pub write_ops : ℕ → ℕ → ℕ → ℕ → Option (VfsOps W) → Files W → Option (Res ℕ × Files W)
  unfolding write_loop
  write_ops fuel f buf count none s = some (err enosys, s)
  write_ops fuel f buf count (some ops) s = elim ops.write [
    | none ↦ some (err enosys, s)
    | some write ↦ write_loop write fuel f buf count 0 s
  ]

  unfoldable pub write_open : ℕ → ℕ → ℕ → Option ℕ → Files W → Option (Res ℕ × Files W)
  unfolding write_ops
  write_open fuel buf count none s = some (err ebadf, s)
  write_open fuel buf count (some f) s =
      let o = s.file f in
      if has_flag o.flags o_wronly
      then write_ops fuel f buf count (nodes.node_ops o.node s.world) s
      else if has_flag o.flags o_rdwr
      then write_ops fuel f buf count (nodes.node_ops o.node s.world) s
      else some (err eacces, s)

  unfoldable pub write_slot : ℕ → ℕ → ℕ → Option ℕ → Files W → Option (Res ℕ × Files W)
  unfolding write_open
  write_slot fuel buf count none s = some (err ebadf, s)
  write_slot fuel buf count (some fd) s =
      if buf == 0 then some (err efault, s) else write_open fuel buf count (file_at s.fds fd) s

  unfoldable pub sys_write : ℕ → ℤ → ℕ → ℕ → Files W → Option (Res ℕ × Files W)
  unfolding write_slot
  sys_write fuel fd buf count s = write_slot fuel buf count (fd_slot fd) s
