-- ===== src/Ramfs/Paths.antt =====
-- Paths of kernel/src/fs/vfs/vfs.c in a tree of kernel/src/fs/ramfs/ramfs.c.
use mathlib.Core.Path.{subst}
use pros.Common.{
  ℕ, ◌<◌, ◌≡◌, ◌≢◌, ◌⊎◌, inl, inr, refl, sym, ap, ◌∙◌, Bool, true, false, ◌&&◌, Option, none, some,
  List, [], ◌∷◌, length, ◌==◌, if◌then◌else◌, All, Bool-cases, ne→==, ==→eq, ==→ne, gt→leb,
}
use pros.Memory.Tokens.{strtokr, tokens}
use pros.Vfs.{Mount, vfs_name_size, vfs_get_mountpoint}
use pros.Vfs.Walk.{
  vfs_path_max, slash, is_nil, created, call_create, create_missing, found_or_created, find_below,
  below, is_directory, step, walk, walk_from, vfs_inner_find_and_create, vfs_lookup, vfs_create,
}
use pros.Ramfs.{vfs_file, vfs_directory, has_flag}
use pros.Ramfs.Dirs.{
  RamNode, RamTree, children_of, find_child, ramfs_ops_finddir, ramfs_ops_create, ramfs_dir_ops,
  ramfs_nodes,
}
use pros.Ramfs.Tree.{IsLive, IsNode, IsTree, Extends, Extends-refl, Extends-trans}
use pros.Ramfs.Create.{Created, ramfs_ops_create-Created, finddir_ne, finddir-null}

-- A round of the loop that gives a node: it is found in its parent, and nothing is lost.
abbrev pub Stepped : RamTree → ℕ → List ℕ → ℕ × RamTree → Type 0
Stepped w p token (c, w') =
    (c ≡ 0)
    ⊎ ((c ≢ 0) × IsTree w' × IsLive w' c × Extends w w' × (ramfs_ops_finddir p token w' ≡ c))

find_child-IsNode :
    (w : RamTree) (xs : List ℕ) (name : List ℕ) (f : ℕ → RamNode)
    → All (IsNode w) xs
    → find_child xs name f ≢ 0
    → IsLive w (find_child xs name f)
unfolding find_child
find_child-IsNode w [] name f h ne = absurd (ne refl)
find_child-IsNode w (c ∷ xs) name f h ne =
    elim (Bool-cases (pros.Ramfs.Dirs.same_name (f c).name name)) [
      | inl e ↦ rw e h.0.1
      | inr e ↦ rw e (
          find_child-IsNode w xs name f h.1
            (λ z. ne (ap (λ b. if b then c else find_child xs name f) e ∙ z)))
    ]

finddir-IsLive :
    (p : ℕ) (token : List ℕ) (w : RamTree)
    → IsTree w
    → IsLive w p
    → ramfs_ops_finddir p token w ≢ 0
    → IsLive w (ramfs_ops_finddir p token w)
finddir-IsLive p token w tree live ne = elim (Bool-cases (p == 0)) [
  | inl e ↦ absurd (ne (ap (λ x. ramfs_ops_finddir x token w) (==→eq p 0 e) ∙ finddir-null token w))
  | inr e ↦
      let same = finddir_ne p token w (==→ne p 0 e) in
      subst (IsLive w) (sym same) (
        find_child-IsNode w (children_of p w) token w.node (tree.nodes p live) (λ z. ne (same ∙ z)))
]

created-Stepped :
    (w : RamTree) (p : ℕ) (token : List ℕ) (r : Option ℕ × RamTree)
    → Created w p token r
    → Stepped w p token (created r)
unfolding created
created-Stepped w p token (none, w') h = inl refl
created-Stepped w p token (some c, w') h = inr h

create_missing-Stepped :
    (is_last : Bool) (flags p : ℕ) (token : List ℕ) (w : RamTree)
    → length token < vfs_name_size
    → IsTree w
    → IsLive w p
    → Stepped w p token (create_missing ramfs_dir_ops is_last flags p token w)
unfolding create_missing call_create
create_missing-Stepped is_last flags p token w short tree live =
    let made = λ (kind : ℕ).
      created-Stepped w p token (ramfs_ops_create p token kind w)
        (ramfs_ops_create-Created p token kind w short tree live) in
    elim (Bool-cases (is_last && has_flag flags vfs_file)) [
      | inl e ↦ rw e (made vfs_file)
      | inr e ↦ elim (Bool-cases (has_flag flags vfs_directory)) [
        | inl e' ↦ rw (e, e') (made vfs_directory)
        | inr e' ↦ rw (e, e') (inl refl)
      ]
    ]

step-Stepped :
    (is_last : Bool) (flags p : ℕ) (token : List ℕ) (w : RamTree)
    → length token < vfs_name_size
    → IsTree w
    → IsLive w p
    → is_directory ramfs_nodes p w ≡ true
    → Stepped w p token (step ramfs_nodes is_last flags p token w)
unfolding step below find_below found_or_created
step-Stepped is_last flags p token w short tree live dir =
    elim (Bool-cases (ramfs_ops_finddir p token w == 0)) [
      | inl e ↦ rw (dir, e) (create_missing-Stepped is_last flags p token w short tree live)
      | inr e ↦
          let ne = ==→ne (ramfs_ops_finddir p token w) 0 e in
          rw (dir, e) (inr (ne, tree, finddir-IsLive p token w tree live ne, Extends-refl w, refl))
    ]

step_outside :
    (is_last : Bool) (flags p : ℕ) (token : List ℕ) (w : RamTree)
    → is_directory ramfs_nodes p w ≡ false
    → step ramfs_nodes is_last flags p token w ≡ (0, w)
unfolding step
step_outside is_last flags p token w dir = rw dir refl

step_found :
    (is_last : Bool) (flags p c : ℕ) (token : List ℕ) (w : RamTree)
    → is_directory ramfs_nodes p w ≡ true
    → ramfs_ops_finddir p token w ≡ c
    → c ≢ 0
    → step ramfs_nodes is_last flags p token w ≡ (c, w)
unfolding step below find_below found_or_created
step_found is_last flags p c token w dir found ne =
    let e : (ramfs_ops_finddir p token w == 0) ≡ false = ap (λ x. x == 0) found ∙ ne→== c 0 ne in
    rw (dir, e) (ap (λ x. (x, w)) found)

-- The round and the rest of the loop, where the walk does not stop at the parent.
walk_on : ℕ → List (List ℕ) → ℕ × RamTree → ℕ × RamTree
walk_on flags rest (next, w') =
    if next == 0 then (0, w') else walk ramfs_nodes false flags rest next w'

walk_cons :
    (flags : ℕ) (token : List ℕ) (rest : List (List ℕ)) (target : ℕ) (w : RamTree)
    → walk ramfs_nodes false flags (token ∷ rest) target w
      ≡ walk_on flags rest (step ramfs_nodes (is_nil rest) flags target token w)
unfolding walk walk_on
walk_cons flags token [] target w = refl
walk_cons flags token (t ∷ rest) target w = refl

walk_on_ne :
    (flags : ℕ) (rest : List (List ℕ)) (r : ℕ × RamTree)
    → r.0 ≢ 0
    → walk_on flags rest r ≡ walk ramfs_nodes false flags rest r.0 r.1
unfolding walk_on
walk_on_ne flags rest (next, w') ne = rw (ne→== next 0 ne) refl

walk_on_null :
    (flags : ℕ) (rest : List (List ℕ)) (r : ℕ × RamTree) → r.0 ≡ 0 → (walk_on flags rest r).0 ≡ 0
unfolding walk_on
walk_on_null flags rest (next, w') e = rw e refl

abbrev Reached : RamTree → ℕ → List (List ℕ) → ℕ × RamTree → Type 0
Reached w target names (t, w') =
    (t ≡ 0) ⊎ ((t ≢ 0) × Extends w w' × (walk ramfs_nodes false 0 names target w' ≡ (t, w')))

Reached-cons :
    (target : ℕ) (token : List ℕ) (rest : List (List ℕ)) (w : RamTree) (c : ℕ) (w1 : RamTree)
    (r : ℕ × RamTree)
    → IsLive w target
    → is_directory ramfs_nodes target w ≡ true
    → c ≢ 0
    → IsLive w1 target
    → Extends w w1
    → ramfs_ops_finddir target token w1 ≡ c
    → Reached w1 c rest r
    → Reached w target (token ∷ rest) r
Reached-cons target token rest w c w1 (t, w') live dir ne live1 grow found (inl e) = inl e
Reached-cons target token rest w c w1 (t, w') live dir ne live1 grow found
      (inr (nz, grow1, walked)) =
    let both = Extends-trans w w1 w' grow grow1 in
    let dir' : is_directory ramfs_nodes target w' ≡ true =
      ap (λ fl. has_flag fl vfs_directory) (both.kinds target live) ∙ dir in
    let found' : ramfs_ops_finddir target token w' ≡ c =
      grow1.finds target token live1 (λ z. ne (sym found ∙ z)) ∙ found in
    let now = step_found (is_nil rest) 0 target c token w' dir' found' ne in
    inr (
      nz,
      both,
      walk_cons 0 token rest target w'
          ∙ ap (walk_on 0 rest) now
          ∙ walk_on_ne 0 rest (c, w') ne
          ∙ walked,
    )

walk-Reached :
    (flags : ℕ) (names : List (List ℕ)) (target : ℕ) (w : RamTree)
    → All (λ n. length n < vfs_name_size) names
    → IsTree w
    → IsLive w target
    → Reached w target names (walk ramfs_nodes false flags names target w)
unfolding walk
walk-Reached flags [] target w short tree live = elim (Bool-cases (target == 0)) [
  | inl e ↦ inl (==→eq target 0 e)
  | inr e ↦ inr (==→ne target 0 e, Extends-refl w, refl)
]
walk-Reached flags (token ∷ rest) target w short tree live =
    let r = step ramfs_nodes (is_nil rest) flags target token w in
    let call = walk_cons flags token rest target w in
    elim (Bool-cases (is_directory ramfs_nodes target w)) [
      | inr e ↦ inl (
          ap (λ x. x.0)
            (call ∙ ap (walk_on flags rest) (step_outside (is_nil rest) flags target token w e))
          ∙ walk_on_null flags rest (0, w) refl)
      | inl e ↦ elim (step-Stepped (is_nil rest) flags target token w short.0 tree live e) [
        | inl z ↦ inl (ap (λ x. x.0) call ∙ walk_on_null flags rest r z)
        | inr (ne, tree1, live1, grow, found) ↦
            subst (Reached w target (token ∷ rest)) (sym (call ∙ walk_on_ne flags rest r ne)) (
              Reached-cons target token rest w r.0 r.1 (walk ramfs_nodes false flags rest r.0 r.1)
                live e ne (grow.live target live) grow found
                (walk-Reached flags rest r.0 r.1 short.1 tree1 live1))
      ]
    ]

-- The names of the path that is left below a mount.
abbrev pub names_in : List ℕ → List (List ℕ)
names_in path = tokens (length path) slash (strtokr (some path) slash none)

from_root :
    (flags root : ℕ) (path : List ℕ) (w : RamTree)
    → root ≢ 0
    → walk_from ramfs_nodes false flags w (some (root, path))
      ≡ walk ramfs_nodes false flags (names_in path) root w
unfolding walk_from
from_root flags root path w ne = rw (ne→== root 0 ne) refl

from_path :
    (mounts : List Mount) (path : List ℕ) (flags root : ℕ) (rest : List ℕ) (w : RamTree)
    → length path < vfs_path_max
    → vfs_get_mountpoint mounts (some path) ≡ some (root, rest)
    → root ≢ 0
    → vfs_inner_find_and_create ramfs_nodes mounts (some path) false flags w
      ≡ walk ramfs_nodes false flags (names_in rest) root w
unfolding vfs_inner_find_and_create
from_path mounts path flags root rest w small mount ne =
    rw (gt→leb vfs_path_max (length path) small)
      (ap (walk_from ramfs_nodes false flags w) mount ∙ from_root flags root rest w ne)

-- In a tree of ramfs, where `vfs_create` gives a node for a path below a mount, names on it being
-- shorter than 128 bytes, `vfs_lookup` of the path gives that node afterwards and changes nothing; and
-- every name that was found in a directory before leads to the same node still.
pub vfs_lookup-vfs_create :
    (mounts : List Mount) (path : List ℕ) (flags root : ℕ) (rest : List ℕ) (w w' : RamTree) (t : ℕ)
    → length path < vfs_path_max
    → vfs_get_mountpoint mounts (some path) ≡ some (root, rest)
    → root ≢ 0
    → All (λ n. length n < vfs_name_size) (names_in rest)
    → IsTree w
    → IsLive w root
    → vfs_create ramfs_nodes mounts (some path) flags w ≡ (t, w')
    → t ≢ 0
    → (vfs_lookup ramfs_nodes mounts (some path) w' ≡ (t, w')) × Extends w w'
unfolding vfs_lookup vfs_create
vfs_lookup-vfs_create mounts path flags root rest w w' t small mount ne short tree live call
      nonzero =
    let reached =
      subst (Reached w root (names_in rest))
        (sym (from_path mounts path flags root rest w small mount ne) ∙ call)
        (walk-Reached flags (names_in rest) root w short tree live) in
    elim reached [
      | inl z ↦ absurd (nonzero z)
      | inr (nz, grow, again) ↦ (from_path mounts path 0 root rest w' small mount ne ∙ again, grow)
    ]
