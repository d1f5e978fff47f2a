-- ===== src/Vfs/Longest.antt =====
-- `vfs_get_mountpoint` of kernel/src/fs/vfs/vfs.c takes the mount with the longest matching path.
use mathlib.Core.Path.{subst}
use pros.Common.{
  ℕ, ◌≤◌, ◌<◌, ◌≡◌, ◌⊎◌, refl, ap, sym, ◌∙◌, inl, inr, true, false, ◌&&◌, Option, none, some, List,
  [], ◌∷◌, ◌++◌, arith, All, length, drop, replicate, ltb, Bool-cases,
}
use pros.Memory.Search.{is_prefix}
use pros.Vfs.{Mount, matches, best_loop, skip_slashes, take_best, vfs_get_mountpoint}
use pros.Vfs.Prefix.{IsPath, NoSlash, skip_slashes_lem, matches-is_prefix, is_prefix-append}

-- A mount matches a path only if its own path has at most `n` bytes.
abbrev pub AtMost : List ℕ → ℕ → Mount → Type 0
AtMost path n c = matches path c ≡ true → length c.path ≤ n

-- A match that is one of the mounts.
record Chosen (mounts : List Mount) (path : List ℕ) (len : ℕ) (result : Option Mount × ℕ)
    : Type 0 where
  pub pre : List Mount
  pub mount : Mount
  pub post : List Mount
  pub split : mounts ≡ pre ++ (mount ∷ post)
  pub matched : matches path mount ≡ true
  pub result_is : result ≡ (some mount, length mount.path)
  pub longer : len < length mount.path

All-AtMost :
    (path : List ℕ) (m n : ℕ) (xs : List Mount)
    → m ≤ n
    → All (AtMost path m) xs
    → All (AtMost path n) xs
All-AtMost path m n [] le h = tt
All-AtMost path m n (x ∷ xs) le h = ((λ e. omega (arith, h.0 e)), All-AtMost path m n xs le h.1)

Chosen-next :
    (c : Mount) (mounts : List Mount) (path : List ℕ) (len len' : ℕ) (result : Option Mount × ℕ)
    → len ≤ len'
    → Chosen mounts path len' result
    → Chosen (c ∷ mounts) path len result
Chosen-next c mounts path len len' result le x = record {
  pre = c ∷ x.pre;
  mount = x.mount;
  post = x.post;
  split = ap (λ l. c ∷ l) x.split;
  matched = x.matched;
  result_is = x.result_is;
  longer = omega (arith, le, x.longer);
}

-- The loop keeps what it has, or takes a longer match; in the end no match is longer.
record Best (mounts : List Mount) (path : List ℕ) (best : Option Mount) (len : ℕ)
    (result : Option Mount × ℕ) : Type 0 where
  pub no_less : len ≤ result.1
  pub none_longer : All (AtMost path result.1) mounts
  pub from : (result ≡ (best, len)) ⊎ Chosen mounts path len result

Best-better :
    (c : Mount) (mounts : List Mount) (path : List ℕ) (best : Option Mount) (len : ℕ)
    (result : Option Mount × ℕ)
    → matches path c && ltb len (length c.path) ≡ true
    → Best mounts path (some c) (length c.path) result
    → Best (c ∷ mounts) path best len result
Best-better c mounts path best len result e b =
    let longer : len < length c.path = ground (arith, e) in
    record {
      no_less = omega (arith, b.no_less, longer);
      none_longer = ((λ i. b.no_less), b.none_longer);
      from = inr (elim b.from [
        | inl kept ↦ record {
          pre = [];
          mount = c;
          post = mounts;
          split = refl;
          matched = ground (arith, e);
          result_is = kept;
          longer = longer;
        }
        | inr chosen ↦
            Chosen-next c mounts path len (length c.path) result (omega (arith, longer)) chosen
      ]);
    }

Best-worse :
    (c : Mount) (mounts : List Mount) (path : List ℕ) (best : Option Mount) (len : ℕ)
    (result : Option Mount × ℕ)
    → matches path c && ltb len (length c.path) ≡ false
    → Best mounts path best len result
    → Best (c ∷ mounts) path best len result
Best-worse c mounts path best len result e b =
    let le = b.no_less in
    record {
      no_less = le;
      none_longer = ((λ i. ground (arith, i, e, le)), b.none_longer);
      from = elim b.from [
        | inl kept ↦ inl kept
        | inr chosen ↦ inr (Chosen-next c mounts path len len result (omega arith) chosen)
      ];
    }

best_loop-Best :
    (mounts : List Mount) (path : List ℕ) (best : Option Mount) (len : ℕ)
    → Best mounts path best len (best_loop mounts path best len)
unfolding best_loop
best_loop-Best [] path best len = record {
  no_less = omega arith;
  none_longer = tt;
  from = inl refl;
}
best_loop-Best (c ∷ mounts) path best len =
    elim (Bool-cases (matches path c && ltb len (length c.path))) [
      | inl e ↦
          let step : best_loop (c ∷ mounts) path best len
              ≡ best_loop mounts path (some c) (length c.path) =
            rw (best_loop, e) refl in
          subst (Best (c ∷ mounts) path best len) (sym step) (
            Best-better c mounts path best len (best_loop mounts path (some c) (length c.path)) e
              (best_loop-Best mounts path (some c) (length c.path)))
      | inr e ↦
          let step : best_loop (c ∷ mounts) path best len ≡ best_loop mounts path best len =
            rw (best_loop, e) refl in
          subst (Best (c ∷ mounts) path best len) (sym step) (
            Best-worse c mounts path best len (best_loop mounts path best len) e
              (best_loop-Best mounts path best len))
    ]

mountpoint-take_best :
    (mounts : List Mount) (path : List ℕ) (best : Option Mount) (n : ℕ)
    → best_loop mounts path none 0 ≡ (best, n)
    → vfs_get_mountpoint mounts (some path) ≡ take_best path (best, n)
unfolding vfs_get_mountpoint
mountpoint-take_best mounts path best n e = ap (take_best path) e

-- A mount is a prefix of the path only if it is at most `n` bytes long.
abbrev pub NoLonger : List ℕ → ℕ → Mount → Type 0
NoLonger path n c = is_prefix c.path path ≡ true → length c.path ≤ n

All-NoLonger :
    (path : List ℕ) (n : ℕ) (mounts : List Mount)
    → All (λ c. IsPath c.path) mounts
    → All (AtMost path n) mounts
    → All (NoLonger path n) mounts
All-NoLonger path n [] h k = tt
All-NoLonger path n (c ∷ mounts) h k =
    ((λ e. k.0 (matches-is_prefix path c h.0 ∙ e)), All-NoLonger path n mounts h.1 k.1)

All-at :
    (pre post : List Mount) (c : Mount)
    → All (λ m. IsPath m.path) (pre ++ (c ∷ post))
    → IsPath c.path
All-at [] post c h = h.0
All-at (x ∷ pre) post c h = All-at pre post c h.1

-- `vfs_get_mountpoint` gives the root of a mount whose path the given path begins with, byte by byte,
-- and what follows it and all the slashes behind it; no mount with a longer path would do. It gives
-- NULL only if no mount but one with an empty path would do. The paths of the mounts hold no NUL. Where
-- the path of the mount ends inside a name of the given path it is taken too.
pub vfs_get_mountpoint-longest :
    (mounts : List Mount) (path : List ℕ)
    → All (λ c. IsPath c.path) mounts
    → ((vfs_get_mountpoint mounts (some path) ≡ none) × All (NoLonger path 0) mounts)
      ⊎ ((pre : List Mount) × (c : Mount) × (post : List Mount) × (n : ℕ) × (rest : List ℕ)
          × (mounts ≡ pre ++ (c ∷ post))
          × (path ≡ c.path ++ (replicate n 0x2f ++ rest))
          × NoSlash rest
          × (vfs_get_mountpoint mounts (some path) ≡ some (c.root, rest))
          × All (NoLonger path (length c.path)) mounts)
vfs_get_mountpoint-longest mounts path h =
    let b = best_loop-Best mounts path none 0 in
    elim b.from [
      | inl kept ↦ inl (
        mountpoint-take_best mounts path none 0 kept ∙ (unfold take_best in refl),
        All-NoLonger path 0 mounts h
            (subst (λ n. All (AtMost path n) mounts) (ap (λ r. r.1) kept) b.none_longer),
      )
      | inr x ↦
          let held = subst (All (λ m. IsPath m.path)) x.split h in
          let starts =
            sym (matches-is_prefix path x.mount (All-at x.pre x.post x.mount held)) ∙ x.matched in
          let behind = drop (length x.mount.path) path in
          let (n, slashes, none_left) = skip_slashes_lem behind in
          inr (
            x.pre,
            x.mount,
            x.post,
            n,
            skip_slashes behind,
            x.split,
            is_prefix-append x.mount.path path starts ∙ ap (λ l. x.mount.path ++ l) slashes,
            none_left,
            mountpoint-take_best mounts path (some x.mount) (length x.mount.path) x.result_is
                ∙ (unfold take_best in refl),
            All-NoLonger path (length x.mount.path) mounts h
                (subst (λ n. All (AtMost path n) mounts) (ap (λ r. r.1) x.result_is) b.none_longer),
          )
    ]
