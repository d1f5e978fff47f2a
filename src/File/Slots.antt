-- ===== src/File/Slots.antt =====
-- `sys_openat` of kernel/src/fs/vfs/file.c: which descriptor a file gets.
use mathlib.Core.Path.{subst}
use pros.Common.{
  ℕ, zero, suc, ◌+◌, ◌-◌, ◌<◌, ◌≡◌, ◌≢◌, ◌⊎◌, inl, inr, refl, sym, ap, ◌∙◌, true, false, none, some,
  List, update, update_eq, ◌==◌, if◌then◌else◌, Res, ok, err, Bool-cases, ne→==, ==→eq, ==→ne,
  arith,
}
use pros.Memory.{negsuc}
use pros.Vfs.{Mount}
use pros.Vfs.Node.{Nodes}
use pros.Vfs.Walk.{vfs_lookup}
use pros.File.{
  OpenFile, Files, max_open_files, enoent, eagain, enomem, find_slot, set_file, call_open, ops_of,
  file_ref, file_open_node, install_fd, open_at_slot, open_target, open_path, sys_openat,
}

-- The `n` descriptors from `i` on are in use.
abbrev pub AllUsed : ℕ → ℕ → (ℕ → ℕ) → Type 0
AllUsed zero i fds = Unit
AllUsed (suc n) i fds = (fds i ≢ 0) × AllUsed n (suc i) fds

find_slot_lem :
    (n i : ℕ) (fds : ℕ → ℕ)
    → ((find_slot n i fds ≡ none) × AllUsed n i fds)
      ⊎ ((k : ℕ) × (find_slot n i fds ≡ some (i + k))
          × (k < n)
          × AllUsed k i fds
          × (fds (i + k) ≡ 0))
unfolding find_slot
find_slot_lem zero i fds = inl (refl, tt)
find_slot_lem (suc n) i fds = elim (Bool-cases (fds i == 0)) [
  | inl e ↦
      let here : i + 0 ≡ i = omega arith in
      inr (
        0,
        rw (e, find_slot) (ap some (sym here)),
        omega arith,
        tt,
        ap fds here ∙ ==→eq (fds i) 0 e,
      )
  | inr e ↦ elim (find_slot_lem n (suc i) fds) [
    | inl (missing, used) ↦ inl (rw (e, find_slot) missing, (==→ne (fds i) 0 e, used))
    | inr (k, found, small, used, free) ↦
        let next : suc i + k ≡ i + suc k = omega arith in
        inr (
          suc k,
          rw (e, find_slot) (found ∙ ap some next),
          omega arith,
          (==→ne (fds i) 0 e, used),
          ap fds (sym next) ∙ free,
        )
  ]
]

module _ {W : Type 0} where
  -- An open file at `f`, for the node, at position 0, held once; or none.
  abbrev pub Opened : ℕ → ℕ → ℕ → ℕ × Files W → Type 0
  Opened room node flags (f, s) =
      (f ≡ 0)
      ⊎ ((f ≡ room)
          × (room ≢ 0)
          × (s.file room ≡ record { node = node; offset = 0; flags = flags; ref_count = 1 }))

  -- What `sys_openat` gives once there is a node, on the descriptors `fds`.
  abbrev pub OpenDone : ℕ → ℕ → ℕ → (ℕ → ℕ) → Res ℕ × Files W → Type 0
  OpenDone room node flags fds (r, s) =
      ((r ≡ err eagain) × AllUsed (max_open_files - 3) 3 fds × (s.fds ≡ some fds))
      ⊎ ((k : ℕ) × (k < max_open_files - 3)
          × AllUsed k 3 fds
          × (fds (3 + k) ≡ 0)
          × (((r ≡ err enomem) × (s.fds ≡ some (update fds (3 + k) 0)))
              ⊎ ((r ≡ ok (3 + k))
                  × (room ≢ 0)
                  × (s.fds ≡ some (update fds (3 + k) room))
                  × (s.file room
                      ≡ record { node = node; offset = 0; flags = flags; ref_count = 1 }))))

module _ {W : Type 0} (nodes : Nodes W) where
  file_ref-Opened :
      (room node flags : ℕ) (s : Files W)
      → s.file room ≡ record { node = node; offset = 0; flags = flags; ref_count = 0 }
      → room ≢ 0
      → Opened room node flags (file_ref nodes room s)
  unfolding file_ref
  file_ref-Opened room node flags s e ne =
      let first : ((s.file room).ref_count == 0) ≡ true = ap (λ o. o.ref_count == 0) e in
      let o = s.file room in
      let once : record o { ref_count = o.ref_count + 1 }
          ≡ record { node = node; offset = 0; flags = flags; ref_count = 1 } =
        ap {A = OpenFile} {B = OpenFile} (λ x. record x { ref_count = x.ref_count + 1 }) e in
      let nonnull = ne→== room 0 ne in
      elim (Bool-cases (call_open (ops_of nodes o.node s.world) o.node s.world).0) [
        | inl opened ↦
            rw (nonnull, first, opened)
              (inr
                (refl, ne, update_eq s.file room (record o { ref_count = o.ref_count + 1 }) ∙ once))
        | inr refused ↦ rw (nonnull, first, refused) (inl refl)
      ]

  file_open_node-Opened :
      (room node flags : ℕ) (s : Files W)
      → Opened room node flags (file_open_node nodes room node flags s)
  unfolding file_open_node
  file_open_node-Opened room node flags s = elim (Bool-cases (node == 0)) [
    | inl e ↦ rw e (inl refl)
    | inr e ↦ elim (Bool-cases (room == 0)) [
      | inl e' ↦ rw (e, e') (inl refl)
      | inr e' ↦
          let o : OpenFile = record { node = node; offset = 0; flags = flags; ref_count = 0 } in
          rw (e, e')
            (file_ref-Opened room node flags (set_file room o s) (update_eq s.file room o)
              (==→ne room 0 e'))
    ]
  ]

  install_fd-OpenDone :
      (room node flags k : ℕ) (fds : ℕ → ℕ) (r : ℕ × Files W)
      → k < max_open_files - 3
      → AllUsed k 3 fds
      → fds (3 + k) ≡ 0
      → Opened room node flags r
      → OpenDone room node flags fds (install_fd nodes (3 + k) fds r)
  unfolding install_fd
  install_fd-OpenDone room node flags k fds (f, s) small used free (inl e) =
      let z : (f == 0) ≡ true = ground (arith, e) in
      rw z (inr (k, small, used, free, inl (refl, ap (λ x. some (update fds (3 + k) x)) e)))
  install_fd-OpenDone room node flags k fds (f, s) small used free (inr (e, ne, file)) =
      let z : (f == 0) ≡ false = ne→== f 0 (λ q. ne (sym e ∙ q)) in
      rw z (
        inr (
          k,
          small,
          used,
          free,
          inr (refl, (λ q. ne q), ap (λ x. some (update fds (3 + k) x)) e, file),
        ))

  open_target-OpenDone :
      (room node flags : ℕ) (fds : ℕ → ℕ) (s : Files W)
      → s.fds ≡ some fds
      → OpenDone room node flags fds (open_target nodes room node flags (some fds) s)
  unfolding open_target open_at_slot
  open_target-OpenDone room node flags fds s table =
      elim (find_slot_lem (max_open_files - 3) 3 fds) [
        | inl (missing, used) ↦
            subst (λ x. OpenDone room node flags fds (open_at_slot nodes room node flags fds x s))
              (sym missing) (inl (refl, used, table))
        | inr (k, found, small, used, free) ↦
            subst (λ x. OpenDone room node flags fds (open_at_slot nodes room node flags fds x s))
              (sym found)
              (install_fd-OpenDone room node flags k fds (file_open_node nodes room node flags s)
                small used free (file_open_node-Opened room node flags s))
      ]

-- `sys_openat` of a path that `vfs_lookup` finds: where all descriptors from 3 on are in use, it fails
-- with EAGAIN and changes none. Otherwise it takes the lowest that is not, and either returns it, with
-- a new open file at position 0 there that is held once, or fails with ENOMEM and leaves it unused; no
-- other descriptor changes.
pub sys_openat-OpenDone :
    {W : Type 0} (nodes : Nodes W) (mounts : List Mount) (room node flags : ℕ) (path : List ℕ)
    (fds : ℕ → ℕ) (s : Files W) (w : W)
    → s.fds ≡ some fds
    → vfs_lookup nodes mounts (some path) s.world ≡ (node, w)
    → node ≢ 0
    → OpenDone room node flags fds (sys_openat nodes mounts room (negsuc 99) (some path) flags s)
unfolding sys_openat open_path
sys_openat-OpenDone nodes mounts room node flags path fds s w table found ne =
    let after = λ (r : ℕ × _).
      if r.0 == 0
      then (err enoent, record s { world = r.1 })
      else open_target nodes room r.0 flags s.fds (record s { world = r.1 }) in
    let call : sys_openat nodes mounts room (negsuc 99) (some path) flags s
        ≡ open_target nodes room node flags (some fds) (record s { world = w }) =
      ap after found
      ∙ ap
          (λ b.
            if b
            then (err enoent, record s { world = w })
            else open_target nodes room node flags s.fds (record s { world = w }))
          (ne→== node 0 ne)
      ∙ ap (λ t. open_target nodes room node flags t (record s { world = w })) table in
    subst (OpenDone room node flags fds) (sym call)
      (open_target-OpenDone nodes room node flags fds (record s { world = w }) table)
