-- ===== src/File/Dents.antt =====
-- `sys_getdents64` of kernel/src/fs/vfs/file.c: the entries of a directory, one record of bytes each, as
-- Linux lays them out. The loop runs on fuel.
use pros.Common.{
  ℕ, zero, suc, ◌+◌, ◌-◌, ◌*◌, ◌/◌, ◌%◌, ◌^◌, Option, none, some, List, [], ◌∷◌, ◌++◌, length,
  replicate, add64, ltb, ◌==◌, if◌then◌else◌, Res, ok, err,
}
use pros.Memory.{ℤ}
use pros.Uaccess.{efault, copy_to_user}
use pros.Ramfs.{einval, has_flag, vfs_file, vfs_directory}
use pros.Vfs.Node.{VfsDirent, VfsOps, Nodes}
use pros.File.{Files, ebadf, enosys, fd_slot, file_at, set_file, vfs_chardevice}
use pros.File.Io.{Round, stop, more, resume, or_done, store}

abbrev pub eio : ℕ
eio = 5

abbrev pub enotdir : ℕ
enotdir = 20

abbrev pub dirent_name_offset : ℕ
dirent_name_offset = 19

abbrev pub dirent_reclen_round_up : ℕ → ℕ
dirent_reclen_round_up x = (x + 7) / 8 * 8

-- A field of `n` bytes, the lowest first.
unfoldable pub le_bytes : ℕ → ℕ → List ℕ
le_bytes zero x = []
le_bytes (suc n) x = x % 256 ∷ le_bytes n (x / 256)

-- `d_type`: DT_REG, DT_DIR, DT_CHR or DT_UNKNOWN.
unfoldable pub dirent_type : ℕ → ℕ
dirent_type flags =
    if has_flag flags vfs_file
    then 8
    else if has_flag flags vfs_directory
    then 4
    else if has_flag flags vfs_chardevice
    then 2
    else 0

abbrev pub dirent_reclen : VfsDirent → ℕ
dirent_reclen d = dirent_reclen_round_up (dirent_name_offset + (length d.name + 1))

-- `struct linux_dirent64`, its name with the NUL, and zeros up to the length of the record.
unfoldable pub dirent_bytes : ℕ → VfsDirent → List ℕ
unfolding le_bytes dirent_type
dirent_bytes offset d =
    let used = dirent_name_offset + (length d.name + 1) in
    le_bytes 8 d.inode
    ++ (le_bytes 8 (offset + 1)
        ++ (le_bytes 2 (dirent_reclen d)
            ++ (dirent_type d.flags ∷ (d.name ++ (0 ∷ replicate (dirent_reclen d - used) 0)))))

module _ {W : Type 0} (nodes : Nodes W) (chunk : ℕ) where
  -- After `copy_to_user` of a record.
  unfoldable pub dirent_copied : ℕ → ℕ → ℕ → Files W → Res (ℕ → ℕ) → Round × Files W
  dirent_copied f reclen total s (err e) = (stop (or_done total e), s)
  dirent_copied f reclen total s (ok m) =
      let o = s.file f in
      (
        more (total + reclen),
        set_file f (record o { offset = add64 o.offset 1 }) (record s { mem = m }),
      )

  -- A round of the loop, after `readdir`.
  unfoldable pub dirent_got : ℕ → ℕ → ℕ → ℕ → Files W → Res (Option VfsDirent) → Round × Files W
  unfolding dirent_copied dirent_bytes
  dirent_got f dirp count total s (err e) = (stop (or_done total eio), s)
  dirent_got f dirp count total s (ok none) = (stop (ok total), s)
  dirent_got f dirp count total s (ok (some d)) =
      let reclen = dirent_reclen d in
      let s' = record s { mem = store chunk (dirent_bytes (s.file f).offset d) s.mem } in
      if ltb count (total + reclen)
      then (stop (or_done total einval), s)
      else dirent_copied f reclen total s' (copy_to_user (add64 dirp total) chunk reclen s'.mem)

  unfoldable pub dirent_loop :
      (ℕ → ℕ → W → Res (Option VfsDirent)) → ℕ → ℕ → ℕ → ℕ → ℕ → Files W → Option (Res ℕ × Files W)
  unfolding dirent_got resume
  dirent_loop readdir zero f dirp count total s = none
  dirent_loop readdir (suc fuel) f dirp count total s =
      let o = s.file f in
      resume (dirent_loop readdir fuel f dirp count)
        (dirent_got f dirp count total s (readdir o.node (o.offset % 2 ^ 32) s.world))

  unfoldable pub dirent_ops : ℕ → ℕ → ℕ → ℕ → Option (VfsOps W) → Files W → Option (Res ℕ × Files W)
  unfolding dirent_loop
  dirent_ops fuel f dirp count none s = some (err enosys, s)
  dirent_ops fuel f dirp count (some ops) s = elim ops.readdir [
    | none ↦ some (err enosys, s)
    | some readdir ↦ dirent_loop readdir fuel f dirp count 0 s
  ]

  unfoldable pub dirent_open : ℕ → ℕ → ℕ → Option ℕ → Files W → Option (Res ℕ × Files W)
  unfolding dirent_ops
  dirent_open fuel dirp count none s = some (err ebadf, s)
  dirent_open fuel dirp count (some f) s =
      let node = (s.file f).node in
      if node == 0
      then some (err ebadf, s)
      else if has_flag (nodes.node_flags node s.world) vfs_directory
      then dirent_ops fuel f dirp count (nodes.node_ops node s.world) s
      else some (err enotdir, s)

  unfoldable pub dirent_slot : ℕ → ℕ → ℕ → Option ℕ → Files W → Option (Res ℕ × Files W)
  unfolding dirent_open
  dirent_slot fuel dirp count none s = some (err ebadf, s)
  dirent_slot fuel dirp count (some fd) s =
      if dirp == 0 then some (err efault, s) else dirent_open fuel dirp count (file_at s.fds fd) s

  unfoldable pub sys_getdents64 : ℕ → ℤ → ℕ → ℕ → Files W → Option (Res ℕ × Files W)
  unfolding dirent_slot
  sys_getdents64 fuel fd dirp count s = dirent_slot fuel dirp count (fd_slot fd) s
