-- ===== src/File/Round.antt =====
-- `sys_read` of kernel/src/fs/vfs/file.c: one round of the loop.
use pros.Common.{
  ℕ, suc, ◌+◌, ◌-◌, ◌≤◌, ◌<◌, ◌≡◌, refl, sym, ap, ◌∙◌, true, false, some, List, length, take, drop,
  add64, u64_mod, ltb, ◌==◌, Res, ok, lt→ltb, ne→==, arith, length-take,
}
use pros.Uaccess.{vmm_addr_split, copy_to_user}
use pros.Ramfs.{has_flag}
use pros.Vfs.Node.{Nodes}
use pros.File.{Files, vfs_chardevice}
use pros.File.Chunk.{advance_lem, onward}
use pros.File.Io.{stop, chunk_len, store, resume, advance, copied_out, read_got, read_loop}

module _ {W : Type 0} (nodes : Nodes W) (chunk : ℕ) (read : ℕ → ℕ → ℕ → W → Res (List ℕ) × W)
    (node f buf count : ℕ) (content : List ℕ) (w : W) (low : buf + count ≤ vmm_addr_split)
    (regular : has_flag (nodes.node_flags node w) vfs_chardevice ≡ false)
    (reads : (offset size : ℕ)
      → read node offset size w ≡ (ok (take size (drop offset content)), w)) where
  pub got_none :
      (total : ℕ) (s : Files W) (bytes : List ℕ)
      → length bytes ≡ 0
      → s.world ≡ w
      → read_got nodes chunk f buf total s (ok bytes, w) ≡ (stop (ok total), s)
  unfolding read_got
  got_none total s bytes e ew =
      let z : (length bytes == 0) ≡ true = ground (arith, e) in
      rw z (ap (λ x. (stop (ok total), record s { world = x })) (sym ew))

  got_some :
      (total : ℕ) (s : Files W) (bytes : List ℕ) (m : ℕ → ℕ)
      → 0 < length bytes
      → buf + total < u64_mod
      → copy_to_user (buf + total) chunk (length bytes) (store chunk bytes s.mem) ≡ ok m
      → read_got nodes chunk f buf total s (ok bytes, w)
        ≡ advance nodes chunk f (length bytes) total (record s { world = w; mem = m })
  unfolding read_got copied_out
  got_some total s bytes m nz below e =
      let z : (length bytes == 0) ≡ false = ne→== (length bytes) 0 (omega arith) in
      let sum : add64 buf total ≡ buf + total = omega arith in
      rw (z, sum)
        (ap
          (copied_out nodes chunk f (length bytes) total
            (record s { world = w; mem = store chunk bytes s.mem }))
          e)

  pub loop_step :
      (fuel total : ℕ) (s : Files W)
      → (s.file f).node ≡ node
      → s.world ≡ w
      → total < count
      → read_loop nodes chunk read (suc fuel) f buf count total s
        ≡ resume (read_loop nodes chunk read fuel f buf count) (
            read_got nodes chunk f buf total s
              (ok (take (chunk_len count total) (drop (s.file f).offset content)), w))
  unfolding read_loop
  loop_step fuel total s en ew more_left =
      let got : read (s.file f).node (s.file f).offset (chunk_len count total) s.world
          ≡ (ok (take (chunk_len count total) (drop (s.file f).offset content)), w) =
        ap (λ x. read x (s.file f).offset (chunk_len count total) s.world) en
        ∙ ap (λ x. read node (s.file f).offset (chunk_len count total) x) ew
        ∙ reads (s.file f).offset (chunk_len count total) in
      rw (lt→ltb total count more_left) (
        ap
          (λ g.
            resume (read_loop nodes chunk read fuel f buf count)
              (read_got nodes chunk f buf total s g))
          got)

  pub loop_end :
      (fuel total : ℕ) (s : Files W)
      → count ≤ total
      → read_loop nodes chunk read (suc fuel) f buf count total s ≡ some (ok total, s)
  unfolding read_loop
  loop_end fuel total s h = let e : ltb total count ≡ false = ground arith in rw e refl

  pub chunk_step :
      (fuel total : ℕ) (s : Files W) (m : ℕ → ℕ)
      → (s.file f).node ≡ node
      → s.world ≡ w
      → total < count
      → (s.file f).offset + count < u64_mod + total
      → 0 < length (take (chunk_len count total) (drop (s.file f).offset content))
      → copy_to_user
          (buf + total)
          chunk
          (length (take (chunk_len count total) (drop (s.file f).offset content)))
          (store chunk (take (chunk_len count total) (drop (s.file f).offset content)) s.mem)
        ≡ ok m
      → read_loop nodes chunk read (suc fuel) f buf count total s
        ≡ read_loop nodes chunk read fuel f buf count
            (total + length (take (chunk_len count total) (drop (s.file f).offset content)))
            (onward f w
              (length (take (chunk_len count total) (drop (s.file f).offset content)))
              m
              s)
  unfolding resume
  chunk_step fuel total s m en ew left room nz e =
      let bytes = take (chunk_len count total) (drop (s.file f).offset content) in
      let len : length bytes ≤ count - total =
        ground (arith, length-take (chunk_len count total) (drop (s.file f).offset content)) in
      loop_step fuel total s en ew left
      ∙ ap (resume (read_loop nodes chunk read fuel f buf count)) (
          got_some total s bytes m nz (omega arith) e
          ∙ advance_lem nodes chunk f (length bytes) total (record s { world = w; mem = m })
              (ap (λ x. has_flag (nodes.node_flags x w) vfs_chardevice) en ∙ regular)
              (omega (arith, len)))
