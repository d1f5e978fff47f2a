-- ===== src/Ramfs/Dirs.antt =====
-- kernel/src/fs/ramfs/ramfs.c, directories. The children of a directory, from `first_child` along
-- `next_sibling`, are a list of nodes; a node is known by its address.
use pros.Common.{
  ℕ, ◌-◌, Bool, not, Option, none, some, List, [], ◌∷◌, ◌++◌, take, get_elem?, update, ◌==◌,
  if◌then◌else◌, Res, ok, err,
}
use pros.Memory.Strings.{list_cmp}
use pros.Vfs.{vfs_name_size, is_zero}
use pros.Vfs.Node.{VfsDirent, VfsOps, Nodes}
use pros.Ramfs.{vfs_directory, has_flag}

-- `struct vfs_node` with `struct ramfs_node_data`, as far as directories need it.
pub record RamNode : Type 0 where
  pub name : List ℕ
  pub flags : ℕ
  pub inode : ℕ
  pub size : ℕ
  pub children : List ℕ

-- The nodes, and what `kcalloc` gives for the coming ones: the address of a node, or 0 where it has no
-- memory for the node or for its data.
pub record RamTree : Type 0 where
  pub node : ℕ → RamNode
  pub answers : List ℕ

abbrev pub children_of : ℕ → RamTree → List ℕ
children_of d w = (w.node d).children

-- The name that a node keeps.
abbrev pub cut_name : List ℕ → List ℕ
cut_name name = take (vfs_name_size - 1) name

unfoldable pub new_node : ℕ → List ℕ → ℕ → RamTree → RamTree
new_node a name flags w =
    let fresh : RamNode = record {
      name = cut_name name;
      flags = flags;
      inode = 0;
      size = 0;
      children = [];
    } in
    record w { node = update w.node a fresh }

unfoldable pub node_at : List ℕ → List ℕ → ℕ → RamTree → ℕ × RamTree
unfolding new_node
node_at [] name flags w = (0, w)
node_at (a ∷ answers) name flags w =
    let w' = record w { answers = answers } in
    if a == 0 then (0, w') else (a, new_node a name flags w')

unfoldable pub ramfs_node_new : Option (List ℕ) → ℕ → RamTree → ℕ × RamTree
unfolding node_at
ramfs_node_new none flags w = (0, w)
ramfs_node_new (some name) flags w = node_at w.answers name flags w

pub ramfs_create_root : RamTree → ℕ × RamTree
unfolding ramfs_node_new
ramfs_create_root w = ramfs_node_new (some (0x2f ∷ [])) vfs_directory w

-- `strncmp(child->name, name, VFS_NAME_SIZE) == 0`
unfoldable pub same_name : List ℕ → List ℕ → Bool
same_name child_name name =
    is_zero (list_cmp (take vfs_name_size child_name) (take vfs_name_size name))

unfoldable pub find_child : List ℕ → List ℕ → (ℕ → RamNode) → ℕ
unfolding same_name
find_child [] name node = 0
find_child (c ∷ children) name node =
    if same_name (node c).name name then c else find_child children name node

unfoldable pub ramfs_ops_finddir : ℕ → List ℕ → RamTree → ℕ
unfolding find_child
ramfs_ops_finddir d name w = if d == 0 then 0 else find_child (children_of d w) name w.node

-- The new node becomes the last child.
unfoldable pub append_child : ℕ → ℕ × RamTree → Option ℕ × RamTree
append_child dir (node, w) =
    let grown = record (w.node dir) { children = children_of dir w ++ (node ∷ []) } in
    if node == 0 then (none, w) else (some node, record w { node = update w.node dir grown })

unfoldable pub ramfs_ops_create : ℕ → List ℕ → ℕ → RamTree → Option ℕ × RamTree
unfolding append_child ramfs_node_new
ramfs_ops_create dir name flags w =
    if dir == 0
    then (none, w)
    else if not (has_flag (w.node dir).flags vfs_directory)
    then (none, w)
    else if not (ramfs_ops_finddir dir name w == 0)
    then (none, w)
    else append_child dir (ramfs_node_new (some name) flags w)

entry_of : Option ℕ → RamTree → Option VfsDirent
entry_of none w = none
entry_of (some c) w =
    some (record {
      name = cut_name (w.node c).name;
      flags = (w.node c).flags;
      inode = (w.node c).inode;
    })

unfoldable pub ramfs_ops_readdir : ℕ → ℕ → RamTree → Res (Option VfsDirent)
unfolding entry_of
ramfs_ops_readdir d index w =
    if d == 0 then err 1 else ok (entry_of (get_elem? (children_of d w) index) w)

-- `ramfs_ops`, as far as directories need it; the data of a file is another part of the state.
abbrev pub ramfs_dir_ops : VfsOps RamTree
ramfs_dir_ops = record {
  create = some ramfs_ops_create;
  open_node = none;
  close_node = none;
  read = none;
  write = none;
  finddir = some ramfs_ops_finddir;
  readdir = some ramfs_ops_readdir;
}

abbrev pub ramfs_nodes : Nodes RamTree
ramfs_nodes = record {
  node_flags = λ n w. (w.node n).flags;
  node_size = λ n w. (w.node n).size;
  node_ops = λ n w. some ramfs_dir_ops;
}
