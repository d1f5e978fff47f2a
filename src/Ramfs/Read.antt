-- ===== src/Ramfs/Read.antt =====
-- `ramfs_ops_read` of kernel/src/fs/ramfs/ramfs.c: the chunks make up the range that was asked for.
use pros.Common.{
  ℕ, zero, suc, ◌+◌, ◌-◌, ◌%◌, ◌≤◌, ◌<◌, ◌≡◌, refl, ap, sym, ◌∙◌, Option, some, List, ◌++◌, arith,
  u64_mod, ltb, leb, ◌==◌, if◌then◌else◌, Bool-cases, inl, inr, ==→eq, ==→ne, leb→le, leb→gt, min,
  ok, err,
}
use pros.Pmm.{page_size}
use pros.Ramfs.{
  File, Page, read_loop, ramfs_get_chunk_info, ramfs_ops_read, has_flag, vfs_file, einval,
}
use pros.Ramfs.Pages.{byte_at, bytes_from, bytes_from-add, read_chunk_lem}

-- A chunk stays in its page, is not empty, and is no longer than what remains.
pub chunk_size_lem :
    (offset remaining : ℕ)
    → (0 < remaining → 0 < (ramfs_get_chunk_info offset remaining).2)
      × (offset % page_size + (ramfs_get_chunk_info offset remaining).2 ≤ page_size)
      × ((ramfs_get_chunk_info offset remaining).2 ≤ remaining)
unfolding ramfs_get_chunk_info
chunk_size_lem offset remaining = ground arith

read_loop_lem :
    (fuel : ℕ) (pages : List (Option Page)) (offset remaining : ℕ)
    → remaining < fuel
    → offset + remaining < u64_mod
    → read_loop fuel pages offset remaining ≡ some (bytes_from (byte_at pages) offset remaining)
unfolding read_loop bytes_from
read_loop_lem zero pages offset remaining h k = absurd (omega arith)
read_loop_lem (suc fuel) pages offset remaining h k = elim (Bool-cases (remaining == 0)) [
  | inl e ↦ let z = ==→eq remaining 0 e in rw (e, z, read_loop) refl
  | inr e ↦
      let c = (ramfs_get_chunk_info offset remaining).2 in
      let b = chunk_size_lem offset remaining in
      let ne = ==→ne remaining 0 e in
      let k' : offset + c < u64_mod = omega (arith, b) in
      let m : (offset + c) % u64_mod ≡ offset + c = omega arith in
      let rest =
        read_loop_lem fuel pages (offset + c) (remaining - c) (omega (arith, b, ne))
          (omega (arith, b)) in
      let split : remaining ≡ c + (remaining - c) = omega (arith, b) in
      let joined = ap some (
        ap (λ t. t ++ bytes_from (byte_at pages) (offset + c) (remaining - c))
          (read_chunk_lem pages offset c b.1)
        ∙ sym (bytes_from-add (byte_at pages) offset c (remaining - c))
        ∙ ap (bytes_from (byte_at pages) offset) (sym split)) in
      rw (e, read_loop, m, rest) joined
]

-- On a file, `ramfs_ops_read` always comes to an end, with the bytes of the file from `offset` on: as
-- many as were asked for, but none from `size` on. A page that is not allocated reads as zeros,
-- other nodes are refused with EINVAL. Offset and size of the file are those of 64-bit words.
pub ramfs_ops_read-bytes_from :
    (f : File) (offset size : ℕ)
    → f.size < u64_mod
    → ramfs_ops_read f offset size ≡ (
        if has_flag f.flags vfs_file
        then ok (some (bytes_from (byte_at f.pages) offset (min size (f.size - offset))))
        else err einval)
unfolding ramfs_ops_read bytes_from
ramfs_ops_read-bytes_from f offset size h = elim (Bool-cases (has_flag f.flags vfs_file)) [
  | inr e ↦ rw e
  | inl e ↦ elim (Bool-cases (leb f.size offset)) [
    | inl past ↦
        let z : min size (f.size - offset) ≡ 0 = ground (arith, leb→le f.size offset past) in
        rw (e, past, z)
    | inr inside ↦
        let lt = leb→gt f.size offset inside in
        let n : (if ltb (f.size - offset) size then f.size - offset else size)
            ≡ min size (f.size - offset) =
          ground arith in
        let all =
          read_loop_lem (suc (min size (f.size - offset))) f.pages offset
            (min size (f.size - offset)) (omega arith) (omega (arith, lt)) in
        rw (e, inside, n, all)
  ]
]
