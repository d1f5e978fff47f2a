-- ===== src/File/Read.antt =====
-- `sys_read` of kernel/src/fs/vfs/file.c: chunk by chunk it reads what one read of the whole would.
use mathlib.Core.Path.{subst}
use pros.Common.{
  ℕ, zero, suc, ◌+◌, ◌-◌, ◌≤◌, ◌<◌, ◌≡◌, ◌⊎◌, inl, inr, refl, sym, ap, ◌∙◌, false, none, some, List,
  length, take, drop, min, u64_mod, update_eq, ltb, ◌==◌, if◌then◌else◌, Res, ok, err, Bool-cases,
  ltb→lt, ltb→ge, ne→==, ==→eq, arith, length-take, length-drop,
}
use pros.Memory.Move.{copied}
use pros.Uaccess.{efault, vmm_addr_split}
use pros.Uaccess.Bounds.{copy_to_user-Copies}
use pros.Ramfs.{has_flag}
use pros.Vfs.Node.{VfsOps, Nodes}
use pros.File.{Files, max_open_files, enosys, fd_slot, file_at, vfs_chardevice}
use pros.Memory.{pos}
use pros.File.Io.{
  copy_buffer_size, chunk_len, store, resume, read_loop, read_ops, read_open, read_slot, sys_read,
}
use pros.File.Chunk.{ReadDone, with_bytes, copied_chunk, onward, done_here, done_more}
use pros.File.Round.{got_none, loop_step, loop_end, chunk_step}

module _ {W : Type 0} (nodes : Nodes W) (chunk : ℕ) (read : ℕ → ℕ → ℕ → W → Res (List ℕ) × W)
    (node f buf count a : ℕ) (content : List ℕ) (w : W) (high : vmm_addr_split ≤ chunk)
    (fits : chunk + copy_buffer_size < u64_mod) (low : buf + count ≤ vmm_addr_split)
    (apart : (a < chunk) ⊎ (chunk + copy_buffer_size ≤ a))
    (regular : has_flag (nodes.node_flags node w) vfs_chardevice ≡ false)
    (reads : (offset size : ℕ)
      → read node offset size w ≡ (ok (take size (drop offset content)), w)) where
  abbrev got : ℕ → ℕ → List ℕ
  got total offset = take (chunk_len count total) (drop offset content)

  -- What is left to read.
  abbrev left : ℕ → ℕ → ℕ
  left total offset = min (count - total) (length content - offset)

  abbrev LoopDone : ℕ → ℕ → Files W → Type 0
  LoopDone fuel total s =
      ReadDone f (buf + total) (left total (s.file f).offset) total content a s
        (read_loop nodes chunk read fuel f buf count total s)

  length-got :
      (total offset : ℕ)
      → length (got total offset)
        ≡ min (min (count - total) copy_buffer_size) (length content - offset)
  length-got total offset =
      let k = chunk_len count total in
      length-take k (drop offset content)
      ∙ ap (min k) (length-drop offset content)
      ∙ ap (λ x. min x (length content - offset)) (ground arith)

  -- A chunk that is not empty, and what is read behind it.
  chunk_then :
      (fuel total k : ℕ) (s : Files W) (m : ℕ → ℕ)
      → k ≡ length (got total (s.file f).offset)
      → s.world ≡ w
      → m a ≡ copied (buf + total) chunk k (store chunk (got total (s.file f).offset) s.mem) a
      → read_loop nodes chunk read (suc fuel) f buf count total s
        ≡ read_loop nodes chunk read fuel f buf count (total + k) (onward f w k m s)
      → LoopDone fuel (total + k) (onward f w k m s)
      → LoopDone (suc fuel) total s
  chunk_then fuel total k s m ek ew copy step rest =
      let o = (s.file f).offset in
      let s1 = onward f w k m s in
      let offset1 : (s1.file f).offset ≡ o + k =
        ap (λ x. x.offset) (update_eq s.file f (record (s.file f) { offset = o + k })) in
      let piece =
        copied_chunk (buf + total) chunk (chunk_len count total) o content s.mem a (ground arith)
          apart in
      let mem1 : m a ≡ with_bytes (buf + total) k content o s.mem a =
        copy
        ∙ subst
            (λ x.
              copied (buf + total) chunk x (store chunk (got total o) s.mem) a
              ≡ with_bytes (buf + total) x content o s.mem a)
            (sym ek) piece in
      let split : left total o ≡ k + left (total + k) (s1.file f).offset =
        ground (arith, ek, length-got total o, offset1) in
      let again =
        subst
          (ReadDone f (buf + (total + k)) (left (total + k) (s1.file f).offset) (total + k) content
            a s1)
          (sym step) rest in
      done_more f buf a content total k (left total o) (left (total + k) (s1.file f).offset) s s1
        (read_loop nodes chunk read (suc fuel) f buf count total s) split offset1 mem1 (sym ew) refl
        again

  -- Nothing is there any more.
  chunk_none :
      (fuel total : ℕ) (s : Files W)
      → (s.file f).node ≡ node
      → s.world ≡ w
      → total < count
      → length (got total (s.file f).offset) ≡ 0
      → LoopDone (suc fuel) total s
  unfolding resume
  chunk_none fuel total s en ew more_left nothing =
      let o = (s.file f).offset in
      done_here f buf a content total (left total o) s
        (read_loop nodes chunk read (suc fuel) f buf count total s)
        (ground (arith, more_left, nothing, length-got total o))
        (loop_step nodes chunk read node f buf count content w low regular reads fuel total s en ew
            more_left
          ∙ ap (resume (read_loop nodes chunk read fuel f buf count)) (
              got_none nodes chunk read node f buf count content w low regular reads total s
                (got total o) nothing ew))

  read_loop-LoopDone :
      (fuel total : ℕ) (s : Files W)
      → (s.file f).node ≡ node
      → s.world ≡ w
      → total ≤ count
      → (s.file f).offset + count < u64_mod + total
      → count < fuel + total
      → LoopDone fuel total s
  read_loop-LoopDone zero total s en ew le room enough = absurd (omega arith)
  read_loop-LoopDone (suc fuel) total s en ew le room enough =
      let o = (s.file f).offset in
      let bytes = got total o in
      let k = length bytes in
      elim (Bool-cases (ltb total count)) [
        | inr e ↦
            done_here f buf a content total (left total o) s
              (read_loop nodes chunk read (suc fuel) f buf count total s) (ground (arith, e))
              (loop_end nodes chunk read node f buf count content w low regular reads fuel total s
                (ltb→ge total count e))
        | inl e ↦ elim (Bool-cases (k == 0)) [
          | inl z ↦ chunk_none fuel total s en ew (ltb→lt total count e) (==→eq k 0 z)
          | inr z ↦
              let more_left = ltb→lt total count e in
              let some_left : 0 < k = ground (arith, z) in
              let within : k ≤ count - total = ground (arith, length-got total o) in
              let small : k ≤ copy_buffer_size = ground (arith, length-got total o) in
              elim (copy_to_user-Copies (buf + total) chunk k (store chunk bytes s.mem)
                (omega arith) high (omega arith)) [
                  | inl (beyond, bad) ↦ absurd (omega (arith, beyond, within, more_left))
                  | inr (m, inside, good, copy) ↦
                      let at_f = update_eq s.file f (record (s.file f) { offset = o + k }) in
                      chunk_then fuel total k s m refl ew (copy a)
                        (chunk_step nodes chunk read node f buf count content w low regular reads
                          fuel total s m en ew more_left room some_left good)
                        (read_loop-LoopDone fuel (total + k) (onward f w k m s)
                          (ap (λ x. x.node) at_f ∙ en) refl (omega (arith, within, more_left))
                          (omega (arith, ap (λ x. x.offset) at_f, room))
                          (omega (arith, enough, some_left)))
                ]
        ]
      ]

-- On a descriptor of a file whose driver reads the bytes `content`, `sys_read` comes to an end with as
-- many bytes as were asked for and are there behind the position, which it moves on by that number. The
-- bytes stand in the caller's buffer, which lies in user space; no other byte changes but those of the
-- kernel's own buffer, and neither do the descriptors and the file system. The fuel is above `count`.
pub sys_read-content :
    {W : Type 0} (nodes : Nodes W) (chunk : ℕ) (read : ℕ → ℕ → ℕ → W → Res (List ℕ) × W)
    (ops : VfsOps W) (fuel fd buf count a : ℕ) (fds : ℕ → ℕ) (content : List ℕ) (s : Files W)
    → vmm_addr_split ≤ chunk
    → chunk + copy_buffer_size < u64_mod
    → (a < chunk) ⊎ (chunk + copy_buffer_size ≤ a)
    → fd < max_open_files
    → 0 < buf
    → buf + count ≤ vmm_addr_split
    → s.fds ≡ some fds
    → 0 < fds fd
    → nodes.node_ops (s.file (fds fd)).node s.world ≡ some ops
    → ops.read ≡ some read
    → has_flag (nodes.node_flags (s.file (fds fd)).node s.world) vfs_chardevice ≡ false
    → ((offset size : ℕ)
        → read (s.file (fds fd)).node offset size s.world
          ≡ (ok (take size (drop offset content)), s.world))
    → (s.file (fds fd)).offset + count < u64_mod
    → count < fuel
    → ReadDone
        (fds fd)
        buf
        (min count (length content - (s.file (fds fd)).offset))
        0
        content
        a
        s
        (sys_read nodes chunk fuel (pos fd) buf count s)
unfolding sys_read read_slot read_open read_ops
sys_read-content nodes chunk read ops fuel fd buf count a fds content s high fits apart small user
      low table used driver has_read regular reads room enough =
    let f = fds fd in
    let slot : fd_slot (pos fd) ≡ some fd = ground (arith, small) in
    let opened : file_at s.fds fd ≡ some f =
      ap (λ t. file_at t fd) table
      ∙ ap (λ b. if b then none else some f) (ne→== f 0 (omega (arith, used))) in
    let nonnull : (buf == 0) ≡ false = ne→== buf 0 (omega (arith, user)) in
    let call : sys_read nodes chunk fuel (pos fd) buf count s
        ≡ read_loop nodes chunk read fuel f buf count 0 s =
      ap (λ x. read_slot nodes chunk fuel buf count x s) slot
      ∙ ap
          (λ b.
            if b
            then some (err efault, s)
            else read_open nodes chunk fuel buf count (file_at s.fds fd) s)
          nonnull
      ∙ ap (λ x. read_open nodes chunk fuel buf count x s) opened
      ∙ ap (λ x. read_ops nodes chunk fuel f buf count x s) driver
      ∙ ap
          (λ x. elim x [
            | none ↦ some (err enosys, s)
            | some r ↦ read_loop nodes chunk r fuel f buf count 0 s
          ])
          has_read in
    let base : buf + 0 ≡ buf = omega arith in
    let whole : count - 0 ≡ count = omega arith in
    let all =
      read_loop-LoopDone nodes chunk read (s.file f).node f buf count a content s.world high fits
        low apart regular reads fuel 0 s refl refl (omega arith) (omega (arith, room))
        (omega (arith, enough)) in
    subst
      (λ p.
        ReadDone f p (min count (length content - (s.file f).offset)) 0 content a s
          (sys_read nodes chunk fuel (pos fd) buf count s))
      base
      (subst (ReadDone f (buf + 0) (min count (length content - (s.file f).offset)) 0 content a s)
        (sym call)
        (subst
          (λ c.
            ReadDone f (buf + 0) (min c (length content - (s.file f).offset)) 0 content a s
              (read_loop nodes chunk read fuel f buf count 0 s))
          whole all))
