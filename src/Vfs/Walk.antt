-- ===== src/Vfs/Walk.antt =====
-- kernel/src/fs/vfs/vfs.c, the walk along a path: `vfs_inner_find_and_create` and its three callers.
use pros.Common.{
  ℕ, Bool, true, false, ◌&&◌, Option, none, some, List, [], ◌∷◌, length, leb, ◌==◌, if◌then◌else◌,
}
use pros.Memory.Tokens.{strtokr, tokens}
use pros.Ramfs.{vfs_file, vfs_directory, has_flag}
use pros.Vfs.{Mount, vfs_get_mountpoint}
use pros.Vfs.Node.{VfsOps, Nodes}

abbrev pub vfs_path_max : ℕ
vfs_path_max = 256

abbrev pub slash : List ℕ
slash = 0x2f ∷ []

abbrev pub is_nil {ℓ} : {A : Type ℓ} → List A → Bool
is_nil [] = true
is_nil (x ∷ xs) = false

module _ {W : Type 0} where
  -- The node that `create` gives, or NULL.
  unfoldable pub created : Option ℕ × W → ℕ × W
  created (none, w) = (0, w)
  created (some target, w) = (target, w)

  unfoldable pub call_create :
      Option (ℕ → List ℕ → ℕ → W → Option ℕ × W) → ℕ → List ℕ → ℕ → W → ℕ × W
  unfolding created
  call_create none parent token flags w = (0, w)
  call_create (some create) parent token flags w = created (create parent token flags w)

  -- What happens where `parent` has no node of the name.
  unfoldable pub create_missing : VfsOps W → Bool → ℕ → ℕ → List ℕ → W → ℕ × W
  unfolding call_create
  create_missing ops is_last flags parent token w =
      if is_last && has_flag flags vfs_file
      then call_create ops.create parent token vfs_file w
      else if has_flag flags vfs_directory
      then call_create ops.create parent token vfs_directory w
      else (0, w)

  unfoldable pub found_or_created : VfsOps W → Bool → ℕ → ℕ → List ℕ → W → ℕ → ℕ × W
  found_or_created ops is_last flags parent token w target =
      if target == 0 then create_missing ops is_last flags parent token w else (target, w)

  unfoldable pub find_below :
      Option (ℕ → List ℕ → W → ℕ) → VfsOps W → Bool → ℕ → ℕ → List ℕ → W → ℕ × W
  find_below none ops is_last flags parent token w = (0, w)
  find_below (some finddir) ops is_last flags parent token w =
      found_or_created ops is_last flags parent token w (finddir parent token w)

  unfoldable pub below : Option (VfsOps W) → Bool → ℕ → ℕ → List ℕ → W → ℕ × W
  unfolding find_below
  below none is_last flags parent token w = (0, w)
  below (some ops) is_last flags parent token w =
      find_below ops.finddir ops is_last flags parent token w

module _ {W : Type 0} (nodes : Nodes W) where
  abbrev pub is_directory : ℕ → W → Bool
  is_directory node w = has_flag (nodes.node_flags node w) vfs_directory

  -- The node of the name `token` in `parent`, perhaps created; 0 where the loop ends with NULL.
  unfoldable pub step : Bool → ℕ → ℕ → List ℕ → W → ℕ × W
  step is_last flags parent token w =
      if is_directory parent w
      then below (nodes.node_ops parent w) is_last flags parent token w
      else (0, w)

  -- The loop on the tokens; `target` is `parent` where a round begins.
  unfoldable pub walk : Bool → ℕ → List (List ℕ) → ℕ → W → ℕ × W
  walk stop_at_parent flags [] target w = (target, w)
  walk stop_at_parent flags (token ∷ rest) target w =
      let (next, w') = step (is_nil rest) flags target token w in
      let onward = walk stop_at_parent flags rest next w' in
      if is_nil rest && stop_at_parent
      then if is_directory target w then (target, w) else (0, w)
      else if next == 0
      then (0, w')
      else onward

  unfoldable pub walk_from : Bool → ℕ → W → Option (ℕ × List ℕ) → ℕ × W
  walk_from stop_at_parent flags w none = (0, w)
  walk_from stop_at_parent flags w (some (root, path)) =
      let names = tokens (length path) slash (strtokr (some path) slash none) in
      if root == 0 then (0, w) else walk stop_at_parent flags names root w

  unfoldable pub vfs_inner_find_and_create : List Mount → Option (List ℕ) → Bool → ℕ → W → ℕ × W
  vfs_inner_find_and_create mounts none stop_at_parent flags w = (0, w)
  vfs_inner_find_and_create mounts (some path) stop_at_parent flags w =
      if leb vfs_path_max (length path)
      then (0, w)
      else walk_from stop_at_parent flags w (vfs_get_mountpoint mounts (some path))

  unfoldable pub vfs_lookup : List Mount → Option (List ℕ) → W → ℕ × W
  vfs_lookup mounts path w = vfs_inner_find_and_create mounts path false 0 w

  unfoldable pub vfs_create : List Mount → Option (List ℕ) → ℕ → W → ℕ × W
  vfs_create mounts path flags w = vfs_inner_find_and_create mounts path false flags w

  unfoldable pub vfs_mkdir_parents : List Mount → Option (List ℕ) → W → ℕ × W
  vfs_mkdir_parents mounts path w = vfs_inner_find_and_create mounts path true vfs_directory w
