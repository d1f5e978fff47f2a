-- ===== src/Ramfs/RoundTrip.antt =====
-- kernel/src/fs/ramfs/ramfs.c: a read gives back what a write put into a file.
use mathlib.Core.Path.{subst}
use pros.Common.{
  ℕ, suc, ◌+◌, ◌-◌, ◌*◌, ◌<◌, ◌≡◌, refl, ap, ◌∙◌, Bool, true, some, List, [], ◌∷◌, arith, length,
  get_or, u64_mod, le→leb, lt→ltb, min, ok,
}
use pros.Ramfs.{File, has_flag, vfs_file, ramfs_ops_write, ramfs_ops_read}
use pros.Ramfs.Pages.{byte_at, bytes_from}
use pros.Ramfs.Memory.{Granted}
use pros.Ramfs.Read.{ramfs_ops_read-bytes_from}
use pros.Ramfs.Write.{FileWritten, overlay, write_file}

bytes_from-buffer :
    (b : ℕ → ℕ) (start : ℕ) (buffer : List ℕ)
    → ((i : ℕ) → i < length buffer → b (start + i) ≡ get_or buffer i 0)
    → bytes_from b start (length buffer) ≡ buffer
unfolding bytes_from
bytes_from-buffer b start [] h = refl
bytes_from-buffer b start (x ∷ xs) h =
    let first : b start ≡ x = ap b (omega arith) ∙ h 0 (omega arith) in
    let rest =
      bytes_from-buffer b (start + 1) xs (λ i l. ap b (omega arith) ∙ h (suc i) (omega arith)) in
    rw (first, rest) refl

overlay-inside :
    (b : ℕ → ℕ) (start : ℕ) (buffer : List ℕ) (i : ℕ)
    → i < length buffer
    → overlay b start (length buffer) buffer (start + i) ≡ get_or buffer i 0
overlay-inside b start buffer i h =
    let ix : start + i - start ≡ i = omega arith in
    rw
      (
        le→leb start (start + i) (omega arith),
        lt→ltb (start + i) (start + length buffer) (omega arith),
        ix,
      )
      refl

read_written :
    (f f' : File) (offset : ℕ) (buffer : List ℕ)
    → offset + length buffer < u64_mod
    → f.size < u64_mod
    → has_flag f.flags vfs_file ≡ true
    → FileWritten f offset buffer (length buffer) f'
    → ramfs_ops_read f' offset (length buffer) ≡ ok (some buffer)
read_written f f' offset buffer h small flag (flags, size, bytes) =
    let flag' : has_flag f'.flags vfs_file ≡ true = rw flags flag in
    let small' : f'.size < u64_mod = ground (arith, size) in
    let n : min (length buffer) (f'.size - offset) ≡ length buffer = ground (arith, size) in
    let laid : (i : ℕ) → i < length buffer → byte_at f'.pages (offset + i) ≡ get_or buffer i 0 =
      λ i l. bytes (offset + i) ∙ overlay-inside (byte_at f.pages) offset buffer i l in
    let all = bytes_from-buffer (byte_at f'.pages) offset buffer laid in
    ramfs_ops_read-bytes_from f' offset (length buffer) small' ∙ rw (flag', n, all) refl

-- When memory is granted, a write to a file takes the whole buffer, and a read at the same offset
-- gives it back. The end of the write is below 2^64, and so is the size of the file.
pub ramfs_ops_read-ramfs_ops_write :
    (f : File) (offset : ℕ) (buffer : List ℕ) (answers : List Bool)
    → offset + length buffer < u64_mod
    → f.size < u64_mod
    → has_flag f.flags vfs_file ≡ true
    → Granted (2 * length buffer) answers
    → (f' : File) × (answers' : List Bool) × (ramfs_ops_write f offset buffer answers
        ≡ ok (some (f', length buffer, answers')))
      × (ramfs_ops_read f' offset (length buffer) ≡ ok (some buffer))
ramfs_ops_read-ramfs_ops_write f offset buffer answers h small flag g =
    let (n, f', answers', call, le, all, written) = write_file f offset buffer answers h flag in
    let whole = all g in
    (
      f',
      answers',
      call ∙ ap (λ k. ok (some (f', k, answers'))) whole,
      read_written f f' offset buffer h small flag
          (subst (λ k. FileWritten f offset buffer k f') whole written),
    )
