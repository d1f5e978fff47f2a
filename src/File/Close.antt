-- ===== src/File/Close.antt =====
-- kernel/src/fs/vfs/file.c: `sys_close` undoes `sys_openat`.
use mathlib.Core.Path.{subst}
use pros.Common.{
  ℕ, ◌+◌, ◌-◌, ◌<◌, ◌≡◌, ◌≢◌, inl, inr, refl, sym, ap, ◌∙◌, false, Option, none, some, List, ltb,
  ◌==◌, if◌then◌else◌, Res, ok, err, update, update_eq, update_ne, Bool-cases, ne→==, ==→eq, arith,
}
use pros.Memory.{ℤ, pos, negsuc}
use pros.Vfs.{Mount}
use pros.Vfs.Node.{VfsOps, Nodes}
use pros.Vfs.Walk.{vfs_lookup}
use pros.File.{
  Files, max_open_files, ebadf, eagain, enomem, fd_slot, ops_of, call_back, call_close, set_fd,
  file_unref, sys_openat, close_slot, sys_close,
}
use pros.File.Slots.{OpenDone, sys_openat-OpenDone}

ok_ok : (a b : ℕ) → ok a ≡ ok b → a ≡ b
ok_ok a b e = cc e

ok_err : (a b : ℕ) → ok a ≡ err b → ⊥
ok_err a b e = cc e

-- The state of the file systems after a driver's close callback on a node, where there is one.
abbrev pub told : {W : Type 0} → Option (VfsOps W) → ℕ → W → W
told none node w = w
told (some ops) node w = elim ops.close_node [ none ↦ w | some close ↦ (close node w).1 ]

module _ {W : Type 0} (nodes : Nodes W) where
  call_back-told :
      (close : Option (ℕ → W → ℤ × W)) (node : ℕ) (w : W)
      → (call_back close node w).1 ≡ elim close [ none ↦ w | some f ↦ (f node w).1 ]
  unfolding call_back
  call_back-told none node w = refl
  call_back-told (some close) node w = refl

  call_driver-told :
      (ops : Option (VfsOps W)) (node : ℕ) (w : W) → (call_close ops node w).1 ≡ told ops node w
  unfolding call_close
  call_driver-told none node w = refl
  call_driver-told (some ops) node w = call_back-told ops.close_node node w

  call_close-told :
      (node : ℕ) (w : W)
      → node ≢ 0
      → (call_close (ops_of nodes node w) node w).1 ≡ told (nodes.node_ops node w) node w
  call_close-told node w ne =
      ap (λ b. (call_close (if b then none else nodes.node_ops node w) node w).1) (ne→== node 0 ne)
      ∙ call_driver-told (nodes.node_ops node w) node w

  -- The end of `sys_close` of a file that was held once: its descriptor is as in `fds` again, as all
  -- are, the file is not held, no other file has changed, and the driver was told.
  abbrev pub CloseDone : ℕ → ℕ → (ℕ → ℕ) → Files W → Res ℕ × Files W → Type 0
  CloseDone room node fds s r =
      (r.0 ≡ ok 0)
      × ((fds' : ℕ → ℕ) × (r.1.fds ≡ some fds') × ((fd : ℕ) → fds' fd ≡ fds fd))
      × ((r.1.file room).ref_count ≡ 0)
      × ((f : ℕ) → f ≢ room → r.1.file f ≡ s.file f)
      × (r.1.world ≡ told (nodes.node_ops node s.world) node s.world)

  file_unref_last :
      (room node flags : ℕ) (s : Files W)
      → room ≢ 0
      → s.file room ≡ record { node = node; offset = 0; flags = flags; ref_count = 1 }
      → file_unref nodes room s ≡ record s {
        file =
            update s.file room (record (s.file room) { ref_count = (s.file room).ref_count - 1 });
        world = (call_close (ops_of nodes node s.world) node s.world).1;
      }
  unfolding file_unref
  file_unref_last room node flags s ne e =
      let z : (room == 0) ≡ false = ne→== room 0 ne in
      let last : ltb 0 ((s.file room).ref_count - 1) ≡ false =
        ap (λ o. ltb 0 (o.ref_count - 1)) e in
      rw (z, last)
        (ap
          (λ n. record s {
            file =
                update s.file room
                  (record (s.file room) { ref_count = (s.file room).ref_count - 1 });
            world = (call_close (ops_of nodes n s.world) n s.world).1;
          })
          (ap (λ o. o.node) e))

  close_lem :
      (room node flags fd : ℕ) (fds : ℕ → ℕ) (s : Files W)
      → fd < max_open_files
      → fds fd ≡ 0
      → room ≢ 0
      → node ≢ 0
      → s.fds ≡ some (update fds fd room)
      → s.file room ≡ record { node = node; offset = 0; flags = flags; ref_count = 1 }
      → CloseDone room node fds s (sys_close nodes (pos fd) s)
  unfolding sys_close close_slot
  close_lem room node flags fd fds s small free ne node_ne table file =
      let fds1 = update fds fd room in
      let slot : fd_slot (pos fd) ≡ some fd = ground (arith, small) in
      let here : fds1 fd ≡ room = update_eq fds fd room in
      let at_file = λ (x : ℕ).
        if x == 0 then (err ebadf, s) else (ok 0, set_fd fd 0 fds1 (file_unref nodes x s)) in
      let call : sys_close nodes (pos fd) s ≡ (ok 0, set_fd fd 0 fds1 (file_unref nodes room s)) =
        ap (λ x. close_slot nodes x s.fds s) slot
        ∙ ap (λ t. close_slot nodes (some fd) t s) table
        ∙ ap at_file here
        ∙ ap (λ b. if b then (err ebadf, s) else (ok 0, set_fd fd 0 fds1 (file_unref nodes room s)))
            (ne→== room 0 ne) in
      let after =
        call ∙ ap (λ x. (ok 0, set_fd fd 0 fds1 x)) (file_unref_last room node flags s ne file) in
      let dropped = record (s.file room) { ref_count = (s.file room).ref_count - 1 } in
      subst (CloseDone room node fds s) (sym after) (
        refl,
        (update fds1 fd 0, refl, λ i. as_before i),
        ap (λ o. o.ref_count) (update_eq s.file room dropped) ∙ ap (λ o. o.ref_count - 1) file,
        λ f off. update_ne s.file room dropped f off,
        call_close-told node s.world node_ne,
      )
    where
      as_before : (i : ℕ) → update (update fds fd room) fd 0 i ≡ fds i
      as_before i = elim (Bool-cases (i == fd)) [
        | inl e ↦ rw e (sym (ap fds (==→eq i fd e) ∙ free))
        | inr e ↦ rw e refl
      ]

-- `sys_close` of the descriptor that `sys_openat` has given succeeds, and then the descriptors are as
-- before `sys_openat`, the open file is not held any more, no other file has changed, and the driver's
-- close callback, where there is one, has been called.
pub sys_close-sys_openat :
    {W : Type 0} (nodes : Nodes W) (mounts : List Mount) (room node flags fd : ℕ) (path : List ℕ)
    (fds : ℕ → ℕ) (s s' : Files W) (w : W)
    → s.fds ≡ some fds
    → vfs_lookup nodes mounts (some path) s.world ≡ (node, w)
    → node ≢ 0
    → sys_openat nodes mounts room (negsuc 99) (some path) flags s ≡ (ok fd, s')
    → CloseDone nodes room node fds s' (sys_close nodes (pos fd) s')
sys_close-sys_openat nodes mounts room node flags fd path fds s s' w table found ne opened =
    elim (subst (OpenDone room node flags fds) opened
      (sys_openat-OpenDone nodes mounts room node flags path fds s w table found ne)) [
        | inl (e, all_used, same) ↦ absurd (ok_err fd eagain e)
        | inr (k, small, used, free, inl (e, rest)) ↦ absurd (ok_err fd enomem e)
        | inr (k, small, used, free, inr (e, nonnull, table', file)) ↦
            let at : fd ≡ 3 + k = ok_ok fd (3 + k) e in
            close_lem nodes room node flags fd fds s' (omega (arith, at, small)) (ap fds at ∙ free)
              nonnull ne (table' ∙ ap (λ x. some (update fds x room)) (sym at)) file
      ]
