-- ===== src/File.antt =====
-- kernel/src/fs/vfs/file.c: open files, and the descriptors of the current task. An open file is known
-- by its address, 0 for NULL. An error number stands for its negative.
pub mod Io
pub mod Chunk
pub mod Round
pub mod Read
pub mod Sent
pub mod Write
pub mod Ends
pub mod Dents
pub mod DentsBounds
pub mod Slots
pub mod Close
mod Tests
use pros.Common.{
  ℕ, zero, suc, ◌+◌, ◌-◌, ◌%◌, ◌^◌, Bool, true, false, not, ◌&&◌, Option, none, some, List, add64,
  update, ltb, ◌==◌, if◌then◌else◌, Res, ok, err,
}
use pros.Memory.{ℤ, pos, negsuc}
use pros.Vfs.{Mount, is_zero}
use pros.Vfs.Node.{VfsOps, Nodes}
use pros.Vfs.Walk.{vfs_lookup}
use pros.Ramfs.{einval, has_flag}

abbrev pub max_open_files : ℕ
max_open_files = 256

abbrev pub vfs_chardevice : ℕ
vfs_chardevice = 0x04

-- AT_FDCWD is -100.
abbrev pub is_at_fdcwd : ℤ → Bool
is_at_fdcwd (pos n) = false
is_at_fdcwd (negsuc n) = n == 99

abbrev pub enoent : ℕ
enoent = 2

abbrev pub ebadf : ℕ
ebadf = 9

abbrev pub eagain : ℕ
eagain = 11

abbrev pub enomem : ℕ
enomem = 12

abbrev pub espipe : ℕ
espipe = 29

abbrev pub enosys : ℕ
enosys = 38

-- `struct file`
pub record OpenFile : Type 0 where
  pub node : ℕ
  pub offset : ℕ
  pub flags : ℕ
  pub ref_count : ℕ

-- The open files, the descriptors of the current task (`none` where there is no task; 0 where a
-- descriptor is not in use), memory, and the state of the file systems.
pub record Files (W : Type 0) : Type 0 where
  pub file : ℕ → OpenFile
  pub fds : Option (ℕ → ℕ)
  pub mem : ℕ → ℕ
  pub world : W

-- The descriptors that a call accepts.
abbrev pub fd_slot : ℤ → Option ℕ
fd_slot (pos n) = if ltb n max_open_files then some n else none
fd_slot (negsuc n) = none

-- The first unused descriptor of so many from `i` on.
unfoldable pub find_slot : ℕ → ℕ → (ℕ → ℕ) → Option ℕ
find_slot zero i fds = none
find_slot (suc n) i fds = let rest = find_slot n (suc i) fds in if fds i == 0 then some i else rest

-- The open file behind a descriptor.
abbrev pub file_at : Option (ℕ → ℕ) → ℕ → Option ℕ
file_at none fd = none
file_at (some fds) fd = if fds fd == 0 then none else some (fds fd)

module _ {W : Type 0} where
  abbrev pub set_file : ℕ → OpenFile → Files W → Files W
  set_file f o s = record s { file = update s.file f o }

  abbrev pub set_fd : ℕ → ℕ → (ℕ → ℕ) → Files W → Files W
  set_fd fd f fds s = record s { fds = some (update fds fd f) }

  -- A callback of a node, which is called if it is there: whether it returned 0, and the new state.
  unfoldable pub call_back : Option (ℕ → W → ℤ × W) → ℕ → W → Bool × W
  call_back none node w = (true, w)
  call_back (some callback) node w = let (result, w') = callback node w in (is_zero result, w')

  unfoldable pub call_open : Option (VfsOps W) → ℕ → W → Bool × W
  unfolding call_back
  call_open none node w = (true, w)
  call_open (some ops) node w = call_back ops.open_node node w

  unfoldable pub call_close : Option (VfsOps W) → ℕ → W → Bool × W
  unfolding call_back
  call_close none node w = (true, w)
  call_close (some ops) node w = call_back ops.close_node node w

module _ {W : Type 0} (nodes : Nodes W) where
  abbrev pub ops_of : ℕ → W → Option (VfsOps W)
  ops_of node w = if node == 0 then none else nodes.node_ops node w

  -- The file, or 0 where the driver refuses it.
  unfoldable pub file_ref : ℕ → Files W → ℕ × Files W
  unfolding call_open
  file_ref f s =
      let o = s.file f in
      let first = o.ref_count == 0 in
      let (opened, w') = call_open (ops_of o.node s.world) o.node s.world in
      let s' = if first then record s { world = w' } else s in
      if f == 0
      then (0, s)
      else if first && not opened
      then (0, s')
      else (f, set_file f (record o { ref_count = o.ref_count + 1 }) s')

  -- `kfree` of the file is the heap's.
  unfoldable pub file_unref : ℕ → Files W → Files W
  unfolding call_close
  file_unref f s =
      let o = s.file f in
      let s' = set_file f (record o { ref_count = o.ref_count - 1 }) s in
      let w' = (call_close (ops_of o.node s.world) o.node s.world).1 in
      if f == 0 then s else if ltb 0 (o.ref_count - 1) then s' else record s' { world = w' }

  -- With the address that `kmalloc` gives, 0 for none.
  unfoldable pub file_open_node : ℕ → ℕ → ℕ → Files W → ℕ × Files W
  file_open_node room node flags s =
      let o : OpenFile = record { node = node; offset = 0; flags = flags; ref_count = 0 } in
      if node == 0 then (0, s) else if room == 0 then (0, s) else file_ref room (set_file room o s)

  -- `fds[fd] = file_open_node(...)`, and the result.
  unfoldable pub install_fd : ℕ → (ℕ → ℕ) → ℕ × Files W → Res ℕ × Files W
  install_fd fd fds (f, s) = (if f == 0 then err enomem else ok fd, set_fd fd f fds s)

  unfoldable pub open_at_slot : ℕ → ℕ → ℕ → (ℕ → ℕ) → Option ℕ → Files W → Res ℕ × Files W
  unfolding install_fd
  open_at_slot room node flags fds none s = (err eagain, s)
  open_at_slot room node flags fds (some fd) s =
      install_fd fd fds (file_open_node room node flags s)

  -- From the descriptors on.
  unfoldable pub open_target : ℕ → ℕ → ℕ → Option (ℕ → ℕ) → Files W → Res ℕ × Files W
  unfolding open_at_slot
  open_target room node flags none s = (err ebadf, s)
  open_target room node flags (some fds) s =
      open_at_slot room node flags fds (find_slot (max_open_files - 3) 3 fds) s

  unfoldable pub open_path : List Mount → ℕ → Option (List ℕ) → ℕ → Files W → Res ℕ × Files W
  open_path mounts room none flags s = (err enoent, s)
  open_path mounts room (some path) flags s =
      let (node, w') = vfs_lookup nodes mounts (some path) s.world in
      let s' = record s { world = w' } in
      if node == 0 then (err enoent, s') else open_target room node flags s'.fds s'

  unfoldable pub sys_openat : List Mount → ℕ → ℤ → Option (List ℕ) → ℕ → Files W → Res ℕ × Files W
  unfolding open_path
  sys_openat mounts room dirfd path flags s =
      if not (is_at_fdcwd dirfd) then (err enosys, s) else open_path mounts room path flags s

  unfoldable pub sys_open : List Mount → ℕ → Option (List ℕ) → ℕ → Files W → Res ℕ × Files W
  sys_open mounts room path flags s = sys_openat mounts room (negsuc 99) path flags s

  unfoldable pub close_slot : Option ℕ → Option (ℕ → ℕ) → Files W → Res ℕ × Files W
  unfolding file_unref
  close_slot none fds s = (err ebadf, s)
  close_slot (some fd) none s = (err ebadf, s)
  close_slot (some fd) (some fds) s =
      if fds fd == 0 then (err ebadf, s) else (ok 0, set_fd fd 0 fds (file_unref (fds fd) s))

  unfoldable pub sys_close : ℤ → Files W → Res ℕ × Files W
  unfolding close_slot
  sys_close fd s = close_slot (fd_slot fd) s.fds s

  -- The new position; `none` for a `whence` that is not known.
  unfoldable pub seek_to : ℕ → ℕ → ℕ → ℕ → Option ℕ
  seek_to position size offset zero = some offset
  seek_to position size offset (suc zero) = some (add64 position offset)
  seek_to position size offset (suc (suc zero)) = some (add64 size offset)
  seek_to position size offset (suc (suc (suc whence))) = none

  unfoldable pub seek_file : ℕ → Option ℕ → Files W → Res ℕ × Files W
  seek_file f none s = (err einval, s)
  seek_file f (some position) s =
      (ok position, set_file f (record (s.file f) { offset = position }) s)

  unfoldable pub lseek_open : Option ℕ → ℕ → ℕ → Files W → Res ℕ × Files W
  unfolding seek_to seek_file
  lseek_open none offset whence s = (err ebadf, s)
  lseek_open (some f) offset whence s =
      let o = s.file f in
      if has_flag (nodes.node_flags o.node s.world) vfs_chardevice
      then (err espipe, s)
      else seek_file f (seek_to o.offset (nodes.node_size o.node s.world) offset whence) s

  unfoldable pub lseek_slot : Option ℕ → ℕ → ℕ → Files W → Res ℕ × Files W
  unfolding lseek_open
  lseek_slot none offset whence s = (err ebadf, s)
  lseek_slot (some fd) offset whence s = lseek_open (file_at s.fds fd) offset whence s

  unfoldable pub sys_lseek : ℤ → ℕ → ℕ → Files W → Res ℕ × Files W
  unfolding lseek_slot
  sys_lseek fd offset whence s = lseek_slot (fd_slot fd) offset whence s
