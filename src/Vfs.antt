-- ===== src/Vfs.antt =====
-- kernel/src/fs/vfs/vfs.c, the mounts. A string is the list of its bytes before the NUL, so that
-- `strncmp` is the comparison that Memory.Strings gives for it. A node is known by its address.
pub mod Prefix
pub mod Longest
pub mod Node
pub mod Walk
mod Tests
use pros.Common.{
  ℕ, zero, suc, ◌+◌, ◌-◌, Bool, true, false, ◌&&◌, Option, none, some, List, [], ◌∷◌, length, take,
  drop, ltb, ◌==◌, if◌then◌else◌,
}
use pros.Memory.{ℤ}
use pros.Memory.Strings.{list_cmp}

abbrev pub vfs_name_size : ℕ
vfs_name_size = 128

-- `struct vfs_mount`; `next` is the rest of the list.
pub record Mount : Type 0 where
  pub path : List ℕ
  pub root : ℕ

unfoldable pub is_zero : ℤ → Bool
is_zero (ℤ.pos n) = n == 0
is_zero (ℤ.negsuc n) = false

unfoldable pub vfs_init : List Mount
vfs_init = []

-- With the answer of `kmalloc`; the new list, and whether the call succeeds. NULL is `none`, or node 0.
unfoldable pub vfs_mount : Bool → Option (List ℕ) → ℕ → List Mount → List Mount × Bool
vfs_mount granted none root_node mounts = (mounts, false)
vfs_mount granted (some path) root_node mounts =
    if root_node == 0
    then (mounts, false)
    else if granted
    then (record { path = take (vfs_name_size - 1) path; root = root_node } ∷ mounts, true)
    else (mounts, false)

-- The test of the loop: `strncmp(*path, current->path, mount_len) == 0`.
unfoldable pub matches : List ℕ → Mount → Bool
unfolding is_zero
matches path current =
    let mount_len = length current.path in
    is_zero (list_cmp (take mount_len path) (take mount_len current.path))

-- The loop over the mounts: `best_match` and `best_match_len`.
unfoldable pub best_loop : List Mount → List ℕ → Option Mount → ℕ → Option Mount × ℕ
best_loop [] path best_match best_match_len = (best_match, best_match_len)
best_loop (current ∷ mounts) path best_match best_match_len =
    let mount_len = length current.path in
    let better = matches path current && ltb best_match_len mount_len in
    best_loop mounts path (if better then some current else best_match)
      (if better then mount_len else best_match_len)

unfoldable pub skip_slashes : List ℕ → List ℕ
skip_slashes [] = []
skip_slashes (c ∷ path) = elim (c == 0x2f) [ true ↦ skip_slashes path | false ↦ c ∷ path ]

-- The end of the call: the path goes on behind the mount's, past any slashes.
unfoldable pub take_best : List ℕ → Option Mount × ℕ → Option (ℕ × List ℕ)
unfolding skip_slashes
take_best path (none, best_match_len) = none
take_best path (some best_match, best_match_len) =
    some (best_match.root, skip_slashes (drop best_match_len path))

-- The root of the mount and what is left of the path.
unfoldable pub vfs_get_mountpoint : List Mount → Option (List ℕ) → Option (ℕ × List ℕ)
vfs_get_mountpoint mounts none = none
vfs_get_mountpoint mounts (some path) = take_best path (best_loop mounts path none 0)
