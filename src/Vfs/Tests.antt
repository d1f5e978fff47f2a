-- ===== src/Vfs/Tests.antt =====
-- The mounts of kernel/src/fs/vfs/vfs.c at concrete paths: "/" and "/a".
use pros.Common.{
  ℕ, ◌≡◌, ◌⊎◌, refl, true, none, some, List, [], ◌∷◌, ◌++◌, All, length, replicate, arith,
}
use pros.Memory.{byte_diff}
use pros.Memory.Strings.{list_cmp}
use pros.Vfs.{
  Mount, vfs_mount, best_loop, matches, is_zero, skip_slashes, take_best, vfs_get_mountpoint,
}
use pros.Vfs.Prefix.{NoSlash}
use pros.Vfs.Longest.{NoLonger, vfs_get_mountpoint-longest}

abbrev mounts : List Mount
mounts = record { path = 0x2f ∷ []; root = 1 } ∷ record { path = 0x2f ∷ 0x61 ∷ []; root = 2 } ∷ []

mounted :
    vfs_mount true (some (0x2f ∷ [])) 1 (record { path = 0x2f ∷ 0x61 ∷ []; root = 2 } ∷ [])
    ≡ (mounts, true)
unfolding vfs_mount
mounted = refl

-- "/a//b" is "b" under the second mount.
under_a :
    vfs_get_mountpoint mounts (some (0x2f ∷ 0x61 ∷ 0x2f ∷ 0x2f ∷ 0x62 ∷ [])) ≡ some (2, 0x62 ∷ [])
unfolding vfs_get_mountpoint take_best best_loop matches is_zero list_cmp byte_diff skip_slashes
under_a = refl

-- The test does not look for a slash behind the path of the mount: "/ab" is "b" under "/a".
beside_a : vfs_get_mountpoint mounts (some (0x2f ∷ 0x61 ∷ 0x62 ∷ [])) ≡ some (2, 0x62 ∷ [])
unfolding vfs_get_mountpoint take_best best_loop matches is_zero list_cmp byte_diff skip_slashes
beside_a = refl

vfs_get_mountpoint-longest_example :
    ((vfs_get_mountpoint mounts (some (0x2f ∷ 0x62 ∷ [])) ≡ none)
      × All (NoLonger (0x2f ∷ 0x62 ∷ []) 0) mounts)
    ⊎ ((pre : List Mount) × (c : Mount) × (post : List Mount) × (n : ℕ) × (rest : List ℕ) × (mounts
          ≡ pre ++ (c ∷ post))
        × (0x2f ∷ 0x62 ∷ [] ≡ c.path ++ (replicate n 0x2f ++ rest))
        × NoSlash rest
        × (vfs_get_mountpoint mounts (some (0x2f ∷ 0x62 ∷ [])) ≡ some (c.root, rest))
        × All (NoLonger (0x2f ∷ 0x62 ∷ []) (length c.path)) mounts)
vfs_get_mountpoint-longest_example =
    vfs_get_mountpoint-longest mounts (0x2f ∷ 0x62 ∷ []) (omega arith)
