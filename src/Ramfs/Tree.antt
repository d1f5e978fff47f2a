-- ===== src/Ramfs/Tree.antt =====
-- `ramfs_ops_create` and `ramfs_ops_finddir` of kernel/src/fs/ramfs/ramfs.c: a node that is created is
-- found, and what was found before still is.
use mathlib.Core.Path.{subst}
use pros.Common.{
  ℕ, ◌-◌, ◌<◌, ◌≡◌, ◌≢◌, inl, inr, refl, sym, ap, ◌∙◌, true, false, ◌||◌, List, [], ◌∷◌, ◌++◌, take,
  length, update, update_eq, update_ne, ◌==◌, if◌then◌else◌, All, Distinct, has, Avoids-has,
  Bool-cases, ==→eq, ==→ne, arith, take_ge_length, All-append,
}
use pros.Memory.{byte_diff}
use pros.Memory.Strings.{list_cmp}
use pros.Vfs.{vfs_name_size, is_zero}
use pros.Ramfs.Dirs.{
  RamNode, RamTree, children_of, cut_name, same_name, find_child, ramfs_ops_finddir,
}

list_cmp_same : (xs : List ℕ) → is_zero (list_cmp xs xs) ≡ true
unfolding list_cmp is_zero byte_diff
list_cmp_same [] = refl
list_cmp_same (x ∷ xs) = ground (arith, list_cmp_same xs)

same_name_cut :
    (name : List ℕ) → length name < vfs_name_size → same_name (cut_name name) name ≡ true
unfolding same_name
same_name_cut name short =
    let e : cut_name name ≡ name = take_ge_length (vfs_name_size - 1) name (omega arith) in
    ap (λ n. is_zero (list_cmp (take vfs_name_size n) (take vfs_name_size name))) e
    ∙ list_cmp_same (take vfs_name_size name)

-- No node yet, at an address that is still to come.
abbrev pub IsLive : RamTree → ℕ → Type 0
IsLive w d = has d w.answers ≡ false

abbrev pub IsNode : RamTree → ℕ → Type 0
IsNode w c = (c ≢ 0) × IsLive w c

-- The coming addresses are distinct, and no node has one of them for a child, or NULL.
pub record IsTree (w : RamTree) : Type 0 where
  pub distinct : Distinct w.answers
  pub nodes : (d : ℕ) → IsLive w d → All (IsNode w) (children_of d w)

-- What is found in `w` is found in `w'`.
pub record Extends (w w' : RamTree) : Type 0 where
  pub live : (d : ℕ) → IsLive w d → IsLive w' d
  pub kinds : (d : ℕ) → IsLive w d → (w'.node d).flags ≡ (w.node d).flags
  pub finds :
      (d : ℕ) (name : List ℕ)
      → IsLive w d
      → ramfs_ops_finddir d name w ≢ 0
      → ramfs_ops_finddir d name w' ≡ ramfs_ops_finddir d name w

pub Extends-refl : (w : RamTree) → Extends w w
Extends-refl w = record { live = λ d h. h; kinds = λ d h. refl; finds = λ d name h f. refl }

pub Extends-trans : (w1 w2 w3 : RamTree) → Extends w1 w2 → Extends w2 w3 → Extends w1 w3
Extends-trans w1 w2 w3 h k = record {
  live = λ d l. k.live d (h.live d l);
  kinds = λ d l. k.kinds d (h.live d l) ∙ h.kinds d l;
  finds = λ d name l f.
      let e = h.finds d name l f in k.finds d name (h.live d l) (λ z. f (sym e ∙ z)) ∙ e;
}

find_child_ext :
    (xs : List ℕ) (name : List ℕ) (f g : ℕ → RamNode)
    → All (λ c. (g c).name ≡ (f c).name) xs
    → find_child xs name g ≡ find_child xs name f
unfolding find_child
find_child_ext [] name f g h = refl
find_child_ext (c ∷ xs) name f g h =
    ap (λ n. if same_name n name then c else find_child xs name g) h.0
    ∙ ap (λ r. if same_name (f c).name name then c else r) (find_child_ext xs name f g h.1)

find_child-append :
    (xs : List ℕ) (a : ℕ) (name : List ℕ) (f : ℕ → RamNode)
    → find_child xs name f ≢ 0
    → find_child (xs ++ (a ∷ [])) name f ≡ find_child xs name f
unfolding find_child
find_child-append [] a name f h = absurd (h refl)
find_child-append (c ∷ xs) a name f h = elim (Bool-cases (same_name (f c).name name)) [
  | inl e ↦ rw e refl
  | inr e ↦
      let ne : find_child xs name f ≢ 0 =
        λ z. h (ap (λ b. if b then c else find_child xs name f) e ∙ z) in
      rw e (find_child-append xs a name f ne)
]

find_child-new :
    (xs : List ℕ) (a : ℕ) (name : List ℕ) (f : ℕ → RamNode)
    → All (λ c. c ≢ 0) xs
    → find_child xs name f ≡ 0
    → same_name (f a).name name ≡ true
    → find_child (xs ++ (a ∷ [])) name f ≡ a
unfolding find_child
find_child-new [] a name f ne h same = rw same refl
find_child-new (c ∷ xs) a name f ne h same = elim (Bool-cases (same_name (f c).name name)) [
  | inl e ↦ absurd (ne.0 (ap (λ b. if b then c else find_child xs name f) (sym e) ∙ h))
  | inr e ↦ rw e (
      find_child-new xs a name f ne.1 (ap (λ b. if b then c else find_child xs name f) (sym e) ∙ h)
        same)
]

All-weaken {ℓ κ ι} :
    {A : Type ℓ} (P : A → Type κ) (Q : A → Type ι) (xs : List A)
    → ((x : A) → P x → Q x)
    → All P xs
    → All Q xs
All-weaken P Q [] f h = tt
All-weaken P Q (x ∷ xs) f h = (f x h.0, All-weaken P Q xs f h.1)

-- A node at the next address `a` becomes the last child of `p`.
module _ (f : ℕ → RamNode) (a : ℕ) (as' : List ℕ) (p : ℕ) (name : List ℕ) (flags : ℕ) where
  abbrev pub before : RamTree
  before = record { node = f; answers = a ∷ as' }

  abbrev pub grown : RamNode
  grown = record (f p) { children = (f p).children ++ (a ∷ []) }

  abbrev pub fresh : RamNode
  fresh = record { name = cut_name name; flags = flags; inode = 0; size = 0; children = [] }

  abbrev pub after : RamTree
  after = record { node = update (update f a fresh) p grown; answers = as' }

  pub IsLive-ne : (d : ℕ) → IsLive before d → (d ≢ a) × IsLive after d
  IsLive-ne d h = elim (Bool-cases (d == a)) [
    | inl e ↦ absurd (ground (arith, h, e))
    | inr e ↦ (==→ne d a e, ap (λ b. b || has d as') (sym e) ∙ h)
  ]

  module _ (tree : IsTree before) (nonzero : a ≢ 0) (live : IsLive before p) where
    pub new-IsLive : IsLive after a
    new-IsLive = Avoids-has a as' tree.distinct.0

    after_new : (after.node a).name ≡ cut_name name
    after_new =
        ap (λ n. n.name)
          (update_ne (update f a fresh) p grown a (λ e. (IsLive-ne p live).0 (sym e)))
        ∙ ap (λ n. n.name) (update_eq f a fresh)

    after_new_children : children_of a after ≡ []
    after_new_children =
        ap (λ n. n.children)
          (update_ne (update f a fresh) p grown a (λ e. (IsLive-ne p live).0 (sym e)))
        ∙ ap (λ n. n.children) (update_eq f a fresh)

    after_parent : after.node p ≡ grown
    after_parent = update_eq (update f a fresh) p grown

    after_other : (d : ℕ) → d ≢ p → d ≢ a → after.node d ≡ f d
    after_other d h k = update_ne (update f a fresh) p grown d h ∙ update_ne f a fresh d k

    after_name : (d : ℕ) → IsLive before d → (after.node d).name ≡ (f d).name
    after_name d h = elim (Bool-cases (d == p)) [
      | inl e ↦ let q = ==→eq d p e in rw q (ap (λ n. n.name) after_parent)
      | inr e ↦ ap (λ n. n.name) (after_other d (==→ne d p e) (IsLive-ne d h).0)
    ]

    pub after_flags : (d : ℕ) → IsLive before d → (after.node d).flags ≡ (f d).flags
    after_flags d h = elim (Bool-cases (d == p)) [
      | inl e ↦ let q = ==→eq d p e in rw q (ap (λ n. n.flags) after_parent)
      | inr e ↦ ap (λ n. n.flags) (after_other d (==→ne d p e) (IsLive-ne d h).0)
    ]

    names_kept :
        (d : ℕ) → IsLive before d → All (λ c. (after.node c).name ≡ (f c).name) (f d).children
    names_kept d h =
        All-weaken (IsNode before) (λ c. (after.node c).name ≡ (f c).name) (f d).children
          (λ c k. after_name c k.1) (tree.nodes d h)

    nodes_kept : (d : ℕ) → IsLive before d → All (IsNode after) (f d).children
    nodes_kept d h =
        All-weaken (IsNode before) (IsNode after) (f d).children (λ c k. (k.0, (IsLive-ne c k.1).1))
          (tree.nodes d h)

    pub after-IsTree : IsTree after
    after-IsTree = record {
      distinct = tree.distinct.1;
      nodes = λ d h. elim (Bool-cases (d == p)) [
        | inl e ↦
            let q = ==→eq d p e in
            let all =
              All-append (IsNode after) (f p).children (a ∷ []) (nodes_kept p live)
                ((nonzero, new-IsLive), tt) in
            rw q (subst (λ n. All (IsNode after) n.children) (sym after_parent) all)
        | inr e ↦ elim (Bool-cases (d == a)) [
          | inl e' ↦
              let q = ==→eq d a e' in rw q (subst (All (IsNode after)) (sym after_new_children) tt)
          | inr e' ↦
              let old : IsLive before d = ap (λ b. b || has d as') e' ∙ h in
              subst (λ n. All (IsNode after) n.children)
                (sym (after_other d (==→ne d p e) (==→ne d a e'))) (nodes_kept d old)
        ]
      ];
    }

    pub finds_kept :
        (d : ℕ) (n : List ℕ)
        → IsLive before d
        → find_child (f d).children n f ≢ 0
        → find_child (children_of d after) n after.node ≡ find_child (f d).children n f
    finds_kept d n h ne = elim (Bool-cases (d == p)) [
      | inl e ↦
          let q = ==→eq d p e in
          let same = find_child_ext (f d).children n f after.node (names_kept d h) in
          ap (λ x. find_child (children_of x after) n after.node) q
          ∙ ap (λ x. find_child x.children n after.node) after_parent
          ∙ ap (λ x. find_child ((f x).children ++ (a ∷ [])) n after.node) (sym q)
          ∙ find_child-append (f d).children a n after.node (λ z. ne (sym same ∙ z))
          ∙ same
      | inr e ↦
          ap (λ x. find_child x.children n after.node)
            (after_other d (==→ne d p e) (IsLive-ne d h).0)
          ∙ find_child_ext (f d).children n f after.node (names_kept d h)
    ]

    pub find_new :
        length name < vfs_name_size
        → find_child (f p).children name f ≡ 0
        → find_child (children_of p after) name after.node ≡ a
    find_new short missing =
        ap (λ x. find_child x.children name after.node) after_parent
        ∙ find_child-new (f p).children a name after.node
            (All-weaken (IsNode before) (λ c. c ≢ 0) (f p).children (λ c k. k.0)
              (tree.nodes p live))
            (find_child_ext (f p).children name f after.node (names_kept p live) ∙ missing)
            (ap (λ n. same_name n name) after_new ∙ same_name_cut name short)
