-- ===== src/Ramfs/DirTests.antt =====
-- Directories of kernel/src/fs/ramfs/ramfs.c and paths of kernel/src/fs/vfs/vfs.c at a concrete tree.
use pros.Common.{ℕ, ◌≡◌, refl, Option, some, List, [], ◌∷◌, arith, replicate}
use pros.Vfs.{Mount, vfs_get_mountpoint}
use pros.Vfs.Walk.{vfs_create, vfs_lookup, vfs_mkdir_parents}
use pros.Ramfs.Dirs.{RamNode, RamTree, ramfs_ops_create, ramfs_ops_finddir, ramfs_nodes}
use pros.Ramfs.Tree.{IsTree, Extends}
use pros.Ramfs.Paths.{vfs_lookup-vfs_create}

abbrev root_node : RamNode
root_node = record { name = 0x2f ∷ []; flags = 2; inode = 0; size = 0; children = [] }

-- A root at 100, and memory for two nodes.
abbrev tree : RamTree
tree = record { node = λ n. root_node; answers = 200 ∷ 201 ∷ [] }

abbrev mounts : List Mount
mounts = record { path = 0x2f ∷ []; root = 100 } ∷ []

-- "/a//b"
abbrev path : List ℕ
path = 0x2f ∷ 0x61 ∷ 0x2f ∷ 0x2f ∷ 0x62 ∷ []

abbrev result : ℕ × RamTree
result = vfs_create ramfs_nodes mounts (some path) 3 tree

tree-IsTree : IsTree tree
tree-IsTree = record { distinct = omega arith; nodes = λ d h. tt }

mount_root : vfs_get_mountpoint mounts (some path) ≡ some (100, 0x61 ∷ 0x2f ∷ 0x2f ∷ 0x62 ∷ [])
unfolding vfs_get_mountpoint pros.Vfs.take_best pros.Vfs.best_loop pros.Vfs.matches
    pros.Memory.Strings.list_cmp pros.Vfs.is_zero pros.Vfs.skip_slashes pros.Memory.byte_diff
mount_root = refl

-- The directory "a" and the file "b" in it are made.
created_b : result.0 ≡ 201
unfolding vfs_create ramfs_ops_create ramfs_ops_finddir vfs_get_mountpoint pros.Vfs.take_best
    pros.Vfs.best_loop pros.Vfs.matches pros.Memory.Strings.list_cmp pros.Vfs.is_zero
    pros.Vfs.skip_slashes pros.Memory.byte_diff pros.Memory.Tokens.tokens pros.Memory.Tokens.strtokr
    pros.Memory.Tokens.token_from pros.Memory.Tokens.token_at pros.Memory.Tokens.skip_delims
    pros.Memory.Tokens.is_delim pros.Memory.Tokens.scan_token
    pros.Vfs.Walk.vfs_inner_find_and_create pros.Vfs.Walk.walk_from pros.Vfs.Walk.walk
    pros.Vfs.Walk.step pros.Vfs.Walk.below pros.Vfs.Walk.find_below pros.Vfs.Walk.found_or_created
    pros.Vfs.Walk.create_missing pros.Vfs.Walk.call_create pros.Vfs.Walk.created
created_b = refl

-- A name of 128 bytes is cut when a node is made, so that it is not found, and is made again.
abbrev long_name : List ℕ
long_name = replicate 128 0x61

abbrev with_long : Option ℕ × RamTree
with_long = ramfs_ops_create 100 long_name 1 tree

long_lost : ramfs_ops_finddir 100 long_name with_long.1 ≡ 0
unfolding ramfs_ops_finddir ramfs_ops_create pros.Vfs.is_zero pros.Memory.Strings.list_cmp
    pros.Memory.byte_diff
long_lost = refl

long_again : (ramfs_ops_create 100 long_name 1 with_long.1).0 ≡ some 201
unfolding ramfs_ops_finddir ramfs_ops_create pros.Vfs.is_zero pros.Memory.Strings.list_cmp
    pros.Memory.byte_diff
long_again = refl

vfs_lookup-vfs_create_example :
    (vfs_lookup ramfs_nodes mounts (some path) result.1 ≡ (result.0, result.1))
    × Extends tree result.1
unfolding pros.Memory.Tokens.tokens pros.Memory.Tokens.strtokr pros.Memory.Tokens.token_from
    pros.Memory.Tokens.token_at pros.Memory.Tokens.skip_delims pros.Memory.Tokens.is_delim
    pros.Memory.Tokens.scan_token
vfs_lookup-vfs_create_example =
    vfs_lookup-vfs_create mounts path 3 100 (0x61 ∷ 0x2f ∷ 0x2f ∷ 0x62 ∷ []) tree result.1 result.0
      (omega arith) mount_root (omega arith) (omega arith) tree-IsTree refl refl
      (λ z. absurd (omega (arith, created_b, z)))
