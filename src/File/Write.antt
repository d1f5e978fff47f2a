-- ===== src/File/Write.antt =====
-- `sys_write` of kernel/src/fs/vfs/file.c: chunk by chunk it writes what one write of the whole would.
use mathlib.Core.Path.{subst}
use pros.Common.{
  ℕ, zero, suc, ◌+◌, ◌-◌, ◌≤◌, ◌<◌, ◌≡◌, ◌⊎◌, inl, inr, refl, sym, ap, ◌∙◌, true, false, none, some,
  List, length, add64, u64_mod, update_eq, ltb, ◌==◌, if◌then◌else◌, Res, ok, err, Bool-cases,
  ltb→lt, lt→ltb, ne→==, arith,
}
use pros.Memory.Move.{copied}
use pros.Memory.{pos}
use pros.Uaccess.{efault, vmm_addr_split, copy_from_user}
use pros.Uaccess.Bounds.{copy_from_user-Copies}
use pros.Ramfs.{has_flag}
use pros.Vfs.Node.{VfsOps, Nodes}
use pros.File.{Files, max_open_files, enosys, fd_slot, file_at, vfs_chardevice}
use pros.File.Io.{
  copy_buffer_size, chunk_len, store, load, resume, more, wrote, copied_in, write_loop, write_ops,
  write_open, write_slot, sys_write, o_wronly, o_rdwr,
}
use pros.File.Chunk.{advance_lem, onward}
use pros.File.Sent.{length-load, sent, sent_chunk, sent-add, sent-kept, WriteDone}

module _ {W : Type 0} (view : W → ℕ → ℕ) (nodes : Nodes W) (chunk : ℕ)
    (write : ℕ → ℕ → List ℕ → W → Res ℕ × W) (node f buf count : ℕ) (high : vmm_addr_split ≤ chunk)
    (fits : chunk + copy_buffer_size < u64_mod) (low : buf + count ≤ vmm_addr_split)
    (regular : (w : W) → has_flag (nodes.node_flags node w) vfs_chardevice ≡ false)
    (writes : (offset : ℕ) (bytes : List ℕ) (w : W)
      → offset + length bytes < u64_mod
      → (w' : W) × (write node offset bytes w ≡ (ok (length bytes), w'))
        × ((i : ℕ) → view w' i ≡ store offset bytes (view w) i)) where
  abbrev LoopDone : ℕ → ℕ → Files W → Type 0
  LoopDone fuel total s =
      WriteDone view f (buf + total) (count - total) total s
        (write_loop nodes chunk write fuel f buf count total s)

  copied_in_more :
      (n total : ℕ) (s : Files W) (m : ℕ → ℕ) (w' : W)
      → 0 < n
      → (s.file f).node ≡ node
      → (s.file f).offset + n < u64_mod
      → write node (s.file f).offset (load chunk n m) s.world ≡ (ok n, w')
      → copied_in nodes chunk write f n total s (ok m) ≡ (more (total + n), onward f w' n m s)
  unfolding copied_in wrote
  copied_in_more n total s m w' nz at below e =
      let call : write (s.file f).node (s.file f).offset (load chunk n m) s.world ≡ (ok n, w') =
        ap (λ x. write x (s.file f).offset (load chunk n m) s.world) at ∙ e in
      let z : (n == 0) ≡ false = ne→== n 0 (omega arith) in
      ap (wrote nodes chunk f total (record s { mem = m })) call
      ∙ rw z (
          advance_lem nodes chunk f n total (record s { mem = m; world = w' })
            (ap (λ x. has_flag (nodes.node_flags x w') vfs_chardevice) at ∙ regular w') below)

  -- One round: the chunk is in the file, and the position behind it.
  write_loop_step :
      (fuel total n : ℕ) (s : Files W) (m : ℕ → ℕ) (w' : W)
      → n ≡ chunk_len count total
      → total < count
      → (s.file f).node ≡ node
      → (s.file f).offset + count < u64_mod + total
      → copy_from_user chunk (buf + total) n s.mem ≡ ok m
      → write node (s.file f).offset (load chunk n m) s.world ≡ (ok n, w')
      → write_loop nodes chunk write (suc fuel) f buf count total s
        ≡ write_loop nodes chunk write fuel f buf count (total + n) (onward f w' n m s)
  unfolding write_loop resume
  write_loop_step fuel total n s m w' en more_left at room copy wrote_n =
      let len : n ≤ count - total = ground (arith, en) in
      let some_left : 0 < n = ground (arith, en, more_left) in
      let sum : add64 buf total ≡ buf + total = omega arith in
      rw (lt→ltb total count more_left, sym en, sum)
        (ap (resume (write_loop nodes chunk write fuel f buf count)) (
          ap (copied_in nodes chunk write f n total s) copy
          ∙ copied_in_more n total s m w' some_left at (omega (arith, len, room)) wrote_n))

  -- What one round and the rounds behind it come to.
  write_then :
      (fuel total n : ℕ) (s : Files W) (m : ℕ → ℕ) (w' : W)
      → total < count
      → n ≤ count - total
      → ((b : ℕ) → m b ≡ copied chunk (buf + total) n s.mem b)
      → ((i : ℕ) → view w' i ≡ store (s.file f).offset (load chunk n m) (view s.world) i)
      → write_loop nodes chunk write (suc fuel) f buf count total s
        ≡ write_loop nodes chunk write fuel f buf count (total + n) (onward f w' n m s)
      → LoopDone fuel (total + n) (onward f w' n m s)
      → LoopDone (suc fuel) total s
  write_then fuel total n s m w' more_left small copy put step (s', e, eo, ev, em, ef) =
      let o = (s.file f).offset in
      let s1 = onward f w' n m s in
      let rest = count - (total + n) in
      let offset1 : (s1.file f).offset ≡ o + n =
        ap (λ x. x.offset) (update_eq s.file f (record (s.file f) { offset = o + n })) in
      let kept : (b : ℕ) → b < vmm_addr_split → m b ≡ s.mem b =
        λ b lo. copy b ∙ ground (arith, lo, high) in
      let sum : total + n + (count - (total + n)) ≡ total + (count - total) =
        omega (arith, small) in
      let place : buf + (total + n) ≡ buf + total + n = omega arith in
      let all : n + (count - (total + n)) ≡ count - total = omega (arith, small) in
      let within : buf + total + n + rest ≤ vmm_addr_split = omega (arith, more_left, small, low) in
      (
        s',
        step ∙ e ∙ ap (λ x. some (ok x, s')) sum,
        omega (arith, eo, offset1, small),
        λ i.
            ev i
            ∙ ap (λ x. sent x rest (s1.file f).offset m (view w') i) place
            ∙ ap (λ x. sent (buf + total + n) rest x m (view w') i) offset1
            ∙ sent-kept (buf + total + n) rest (o + n) m s.mem (view w') i within kept
            ∙ sent-add (buf + total) n rest o s.mem (view s.world) (view w') i
                (put i ∙ sent_chunk (buf + total) chunk n o s.mem m (view s.world) i copy)
            ∙ ap (λ x. sent (buf + total) x o s.mem (view s.world) i) all,
        λ b lo. em b lo ∙ kept b lo,
        ef,
      )

  write_loop-LoopDone :
      (fuel total : ℕ) (s : Files W)
      → (s.file f).node ≡ node
      → total ≤ count
      → (s.file f).offset + count < u64_mod + total
      → count < fuel + total
      → LoopDone fuel total s
  unfolding write_loop
  write_loop-LoopDone zero total s at le room enough = absurd (omega arith)
  write_loop-LoopDone (suc fuel) total s at le room enough =
      let o = (s.file f).offset in
      let n = chunk_len count total in
      elim (Bool-cases (ltb total count)) [
        | inr e ↦
            let none_left : count - total ≡ 0 = ground (arith, e) in
            let sum : total ≡ total + (count - total) = omega (arith, none_left) in
            (
              s,
              rw (e, write_loop) (ap (λ x. some (ok x, s)) sum),
              omega (arith, none_left),
              λ i. ground (arith, none_left),
              λ b lo. refl,
              refl,
            )
        | inl e ↦
            let more_left = ltb→lt total count e in
            let within : n ≤ count - total = ground arith in
            let small : n ≤ copy_buffer_size = ground arith in
            let some_left : 0 < n = ground (arith, more_left) in
            elim (copy_from_user-Copies chunk (buf + total) n s.mem (omega arith) high
              (omega arith)) [
                | inl (beyond, bad) ↦ absurd (omega (arith, beyond, within, more_left))
                | inr (m, inside, good, copy) ↦
                    let len = length-load chunk n m in
                    let (w', wrote_n, put) =
                      writes o (load chunk n m) s.world (omega (arith, len, room, within)) in
                    let call = wrote_n ∙ ap (λ x. (ok x, w')) len in
                    let at_f = update_eq s.file f (record (s.file f) { offset = o + n }) in
                    write_then fuel total n s m w' more_left within copy put
                      (write_loop_step fuel total n s m w' refl more_left at room good call)
                      (write_loop-LoopDone fuel (total + n) (onward f w' n m s)
                        (ap (λ x. x.node) at_f ∙ at) (omega (arith, within, more_left))
                        (omega (arith, ap (λ x. x.offset) at_f, room))
                        (omega (arith, enough, some_left)))
              ]
      ]

-- From a descriptor to the loop.
sys_write-write_loop :
    {W : Type 0} (nodes : Nodes W) (chunk : ℕ) (write : ℕ → ℕ → List ℕ → W → Res ℕ × W)
    (ops : VfsOps W) (fuel fd buf count : ℕ) (fds : ℕ → ℕ) (s : Files W)
    → fd < max_open_files
    → 0 < buf
    → s.fds ≡ some fds
    → 0 < fds fd
    → (has_flag (s.file (fds fd)).flags o_wronly ≡ true)
      ⊎ (has_flag (s.file (fds fd)).flags o_rdwr ≡ true)
    → nodes.node_ops (s.file (fds fd)).node s.world ≡ some ops
    → ops.write ≡ some write
    → sys_write nodes chunk fuel (pos fd) buf count s
      ≡ write_loop nodes chunk write fuel (fds fd) buf count 0 s
unfolding sys_write write_slot write_open write_ops
sys_write-write_loop nodes chunk write ops fuel fd buf count fds s small user table used mode driver
      has_write =
    let f = fds fd in
    let slot : fd_slot (pos fd) ≡ some fd = ground (arith, small) in
    let opened : file_at s.fds fd ≡ some f =
      ap (λ t. file_at t fd) table
      ∙ ap (λ b. if b then none else some f) (ne→== f 0 (omega (arith, used))) in
    let nonnull : (buf == 0) ≡ false = ne→== buf 0 (omega (arith, user)) in
    let by_ops = write_ops nodes chunk fuel f buf count in
    let allowed : write_open nodes chunk fuel buf count (some f) s
        ≡ by_ops (nodes.node_ops (s.file f).node s.world) s =
      elim mode [
        | inl e ↦ rw e refl
        | inr e ↦ elim (Bool-cases (has_flag (s.file f).flags o_wronly)) [
          | inl e' ↦ rw e' refl
          | inr e' ↦ rw (e', e) refl
        ]
      ] in
    ap (λ x. write_slot nodes chunk fuel buf count x s) slot
    ∙ ap
        (λ b.
          if b
          then some (err efault, s)
          else write_open nodes chunk fuel buf count (file_at s.fds fd) s)
        nonnull
    ∙ ap (λ x. write_open nodes chunk fuel buf count x s) opened
    ∙ allowed
    ∙ ap (λ x. by_ops x s) driver
    ∙ ap
        (λ x. elim x [
          | none ↦ some (err enosys, s)
          | some w ↦ write_loop nodes chunk w fuel f buf count 0 s
        ])
        has_write

-- On a descriptor of a file that is open for writing, whose driver puts all the bytes of a write at its
-- position into the content that `view` reads off, `sys_write` comes to an end with as many bytes as
-- were asked for, and the position has moved on by that number. The content has the bytes of the
-- caller's buffer, which lies in user space, from the old position on, and is as before elsewhere. The
-- memory of the user and the descriptors do not change. The fuel is above `count`.
pub sys_write-content :
    {W : Type 0} (view : W → ℕ → ℕ) (nodes : Nodes W) (chunk : ℕ)
    (write : ℕ → ℕ → List ℕ → W → Res ℕ × W) (ops : VfsOps W) (fuel fd buf count : ℕ) (fds : ℕ → ℕ)
    (s : Files W)
    → vmm_addr_split ≤ chunk
    → chunk + copy_buffer_size < u64_mod
    → fd < max_open_files
    → 0 < buf
    → buf + count ≤ vmm_addr_split
    → s.fds ≡ some fds
    → 0 < fds fd
    → (has_flag (s.file (fds fd)).flags o_wronly ≡ true)
      ⊎ (has_flag (s.file (fds fd)).flags o_rdwr ≡ true)
    → nodes.node_ops (s.file (fds fd)).node s.world ≡ some ops
    → ops.write ≡ some write
    → ((w : W) → has_flag (nodes.node_flags (s.file (fds fd)).node w) vfs_chardevice ≡ false)
    → ((offset : ℕ) (bytes : List ℕ) (w : W)
        → offset + length bytes < u64_mod
        → (w' : W) × (write (s.file (fds fd)).node offset bytes w ≡ (ok (length bytes), w'))
          × ((i : ℕ) → view w' i ≡ store offset bytes (view w) i))
    → (s.file (fds fd)).offset + count < u64_mod
    → count < fuel
    → WriteDone view (fds fd) buf count 0 s (sys_write nodes chunk fuel (pos fd) buf count s)
sys_write-content view nodes chunk write ops fuel fd buf count fds s high fits small user low table
      used mode driver has_write regular writes room enough =
    let f = fds fd in
    let base : buf + 0 ≡ buf = omega arith in
    let call =
      sys_write-write_loop nodes chunk write ops fuel fd buf count fds s small user table used mode
        driver has_write in
    let all =
      write_loop-LoopDone view nodes chunk write (s.file f).node f buf count high fits low regular
        writes fuel 0 s refl (omega arith) (omega (arith, room)) (omega (arith, enough)) in
    let whole : count - 0 ≡ count = omega arith in
    let loop = write_loop nodes chunk write fuel f buf count 0 s in
    subst (WriteDone view f buf count 0 s) (sym call) (
      subst (λ p. WriteDone view f p count 0 s loop) base
        (subst (λ n. WriteDone view f (buf + 0) n 0 s loop) whole all))
