-- ===== src/Vfs/Node.antt =====
-- kernel/include/fs/vfs/vfs.h: nodes and the operations that a file system gives for them. A node is
-- known by its address, 0 for NULL, a string by the list of its bytes; `W` is the file system's state.
use pros.Common.{ℕ, Option, List, Res}
use pros.Memory.{ℤ}

-- `struct vfs_dirent`
pub record VfsDirent : Type 0 where
  pub name : List ℕ
  pub flags : ℕ
  pub inode : ℕ

-- `struct vfs_ops`; `none` is a NULL pointer. A result that is not negative is a number of bytes, or an
-- entry; `create` gives the new node if it succeeds, and `readdir` no entry at the end.
pub record VfsOps (W : Type 0) : Type 0 where
  pub create : Option (ℕ → List ℕ → ℕ → W → Option ℕ × W)
  pub open_node : Option (ℕ → W → ℤ × W)
  pub close_node : Option (ℕ → W → ℤ × W)
  pub read : Option (ℕ → ℕ → ℕ → W → Res (List ℕ) × W)
  pub write : Option (ℕ → ℕ → List ℕ → W → Res ℕ × W)
  pub finddir : Option (ℕ → List ℕ → W → ℕ)
  pub readdir : Option (ℕ → ℕ → W → Res (Option VfsDirent))

-- The fields of `struct vfs_node` that are read here.
pub record Nodes (W : Type 0) : Type 0 where
  pub node_flags : ℕ → W → ℕ
  pub node_size : ℕ → W → ℕ
  pub node_ops : ℕ → W → Option (VfsOps W)
