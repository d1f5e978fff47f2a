-- ===== src/Ramfs/Create.antt =====
-- `ramfs_ops_create` of kernel/src/fs/ramfs/ramfs.c on a tree.
use mathlib.Core.Path.{subst}
use pros.Common.{
  ℕ, ◌<◌, ◌≡◌, ◌≢◌, inl, inr, refl, sym, ap, ◌∙◌, Option, none, some, List, [], ◌∷◌, ◌++◌, length,
  update, update_ne, ◌==◌, Bool-cases, ne→==, ==→eq, ==→ne,
}
use pros.Vfs.{vfs_name_size}
use pros.Ramfs.{vfs_directory, has_flag}
use pros.Ramfs.Dirs.{
  RamNode, RamTree, children_of, find_child, ramfs_ops_finddir, ramfs_ops_create, ramfs_node_new,
  node_at, new_node, append_child,
}
use pros.Ramfs.Tree.{
  IsLive, IsTree, Extends, fresh, after, after-IsTree, finds_kept, find_new, new-IsLive,
  after_flags, IsLive-ne,
}

-- A call that succeeds gives a new node, which is found where it was created.
abbrev pub Created : RamTree → ℕ → List ℕ → Option ℕ × RamTree → Type 0
Created w p name (none, w') = Unit
Created w p name (some c, w') =
    (c ≢ 0) × IsTree w' × IsLive w' c × Extends w w' × (ramfs_ops_finddir p name w' ≡ c)

pub finddir_ne :
    (d : ℕ) (name : List ℕ) (w : RamTree)
    → d ≢ 0
    → ramfs_ops_finddir d name w ≡ find_child (children_of d w) name w.node
unfolding ramfs_ops_finddir
finddir_ne d name w h = rw (ne→== d 0 h) refl

pub finddir-null : (name : List ℕ) (w : RamTree) → ramfs_ops_finddir 0 name w ≡ 0
unfolding ramfs_ops_finddir
finddir-null name w = refl

module _ (f : ℕ → RamNode) (p : ℕ) (name : List ℕ) (flags : ℕ) (nonnull : p ≢ 0)
    (short : length name < vfs_name_size) where
  after-Extends :
      (a : ℕ) (as' : List ℕ)
      → IsTree (record { node = f; answers = a ∷ as' })
      → a ≢ 0
      → IsLive (record { node = f; answers = a ∷ as' }) p
      → Extends (record { node = f; answers = a ∷ as' }) (after f a as' p name flags)
  after-Extends a as' tree nonzero live = record {
    live = λ d h. (IsLive-ne f a as' p name flags d h).1;
    kinds = λ d h. after_flags f a as' p name flags tree nonzero live d h;
    finds = λ d n h ne. elim (Bool-cases (d == 0)) [
      | inl e ↦ absurd (
          ne (
            ap (λ x. ramfs_ops_finddir x n (record { node = f; answers = a ∷ as' })) (==→eq d 0 e)
            ∙ finddir-null n (record { node = f; answers = a ∷ as' })))
      | inr e ↦
          let nz = ==→ne d 0 e in
          let old = finddir_ne d n (record { node = f; answers = a ∷ as' }) nz in
          finddir_ne d n (after f a as' p name flags) nz
          ∙ finds_kept f a as' p name flags tree nonzero live d n h (λ z. ne (old ∙ z))
          ∙ sym old
    ];
  }

  appended-Created :
      (answers : List ℕ)
      → IsTree (record { node = f; answers = answers })
      → IsLive (record { node = f; answers = answers }) p
      → find_child (f p).children name f ≡ 0
      → Created
          (record { node = f; answers = answers })
          p
          name
          (append_child p
            (ramfs_node_new (some name) flags (record { node = f; answers = answers })))
  unfolding append_child ramfs_node_new node_at new_node
  appended-Created [] tree live missing = tt
  appended-Created (a ∷ as') tree live missing = elim (Bool-cases (a == 0)) [
    | inl e ↦ rw (e, append_child) tt
    | inr e ↦
        let nonzero = ==→ne a 0 e in
        let other = (IsLive-ne f a as' p name flags p live).0 in
        let result : RamNode → Option ℕ × RamTree = λ n. (
          some a,
          record {
            node =
                update (update f a (fresh f a as' p name flags)) p
                  (record n { children = n.children ++ (a ∷ []) });
            answers = as';
          },
        ) in
        let raw : append_child p
              (ramfs_node_new (some name) flags (record { node = f; answers = a ∷ as' }))
            ≡ result (update f a (fresh f a as' p name flags) p) =
          rw (e, append_child, e) refl in
        let call : append_child p
              (ramfs_node_new (some name) flags (record { node = f; answers = a ∷ as' }))
            ≡ (some a, after f a as' p name flags) =
          raw ∙ ap result (update_ne f a (fresh f a as' p name flags) p other) in
        subst (Created (record { node = f; answers = a ∷ as' }) p name) (sym call) (
          nonzero,
          after-IsTree f a as' p name flags tree nonzero live,
          new-IsLive f a as' p name flags tree nonzero live,
          after-Extends a as' tree nonzero live,
          finddir_ne p name (after f a as' p name flags) nonnull
              ∙ find_new f a as' p name flags tree nonzero live short missing,
        )
  ]

pub ramfs_ops_create-Created :
    (p : ℕ) (name : List ℕ) (flags : ℕ) (w : RamTree)
    → length name < vfs_name_size
    → IsTree w
    → IsLive w p
    → Created w p name (ramfs_ops_create p name flags w)
unfolding ramfs_ops_create
ramfs_ops_create-Created p name flags w short tree live = elim (Bool-cases (p == 0)) [
  | inl e ↦ rw e tt
  | inr e ↦ elim (Bool-cases (has_flag (w.node p).flags vfs_directory)) [
    | inr e1 ↦ rw (e, e1) tt
    | inl e1 ↦ elim (Bool-cases (ramfs_ops_finddir p name w == 0)) [
      | inr e2 ↦ rw (e, e1, e2) tt
      | inl e2 ↦
          let nz = ==→ne p 0 e in
          let missing = sym (finddir_ne p name w nz) ∙ ==→eq (ramfs_ops_finddir p name w) 0 e2 in
          rw (e, e1, e2) (appended-Created w.node p name flags nz short w.answers tree live missing)
    ]
  ]
]
