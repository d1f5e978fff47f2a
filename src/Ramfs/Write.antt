-- ===== src/Ramfs/Write.antt =====
-- `ramfs_ops_write` of kernel/src/fs/ramfs/ramfs.c: the bytes of the file after the loop.
use pros.Common.{
  ℕ, zero, suc, ◌+◌, ◌-◌, ◌*◌, ◌/◌, ◌%◌, ◌≤◌, ◌<◌, ◌≡◌, refl, ap, sym, ◌∙◌, Bool, true, false, ◌&&◌,
  Option, none, some, List, arith, length, get_or, set, drop, get_or-drop, get_or-set_self,
  get_or-set_ne, u64_mod, ltb, leb, ◌==◌, if◌then◌else◌, Bool-cases, inl, inr, ==→eq, ==→ne, leb→le,
  ok,
}
use pros.Pmm.{page_size}
use pros.Ramfs.{
  Page, File, Written, has_flag, vfs_file, page_write, walk_page_alloc, write_loop, ramfs_ops_write,
  ramfs_get_chunk_info,
}
use pros.Ramfs.Pages.{byte_at}
use pros.Ramfs.Grow.{walk_page_alloc_lem}
use pros.Ramfs.Memory.{Granted, Granted-drop, walk_page_alloc-Uses}
use pros.Ramfs.Read.{chunk_size_lem}

-- The bytes `b` with `n` bytes of the buffer laid over them at `start`.
abbrev pub overlay : (ℕ → ℕ) → ℕ → ℕ → List ℕ → ℕ → ℕ
overlay b start n buffer i =
    if leb start i && ltb i (start + n) then get_or buffer (i - start) 0 else b i

page_write_lem :
    (pages : List (Option Page)) (page : Page) (start n : ℕ) (buffer : List ℕ) (i : ℕ)
    → get_or pages (start / page_size) none ≡ some page
    → start / page_size < length pages
    → start % page_size + n ≤ page_size
    → byte_at
        (set pages (start / page_size) (some (page_write page (start % page_size) n buffer)))
        i
      ≡ overlay (byte_at pages) start n buffer i
unfolding page_write
page_write_lem pages page start n buffer i e h k =
    elim (Bool-cases (start / page_size == i / page_size)) [
      | inl same ↦
          let ix = ==→eq (start / page_size) (i / page_size) same in
          rw
            (
              sym ix,
              get_or-set_self pages (start / page_size)
                  (some (page_write page (start % page_size) n buffer)) none h,
              e,
              page_write,
            )
            (ground (arith, ix))
      | inr other ↦
          let ne = ==→ne (start / page_size) (i / page_size) other in
          rw
            (get_or-set_ne pages (start / page_size) (i / page_size)
              (some (page_write page (start % page_size) n buffer)) none ne)
            (ground (arith, ne))
    ]

-- Two parts of the buffer laid one behind the other are the whole.
overlay-overlay :
    (b c : ℕ → ℕ) (start m n : ℕ) (buffer : List ℕ) (i : ℕ)
    → c i ≡ overlay b start m buffer i
    → overlay c (start + m) n (drop m buffer) i ≡ overlay b start (m + n) buffer i
overlay-overlay b c start m n buffer i e =
    let moved = get_or-drop m (i - (start + m)) buffer 0 in
    elim (Bool-cases (leb (start + m) i)) [
      | inl past ↦
          let ix : m + (i - (start + m)) ≡ i - start = omega (arith, leb→le (start + m) i past) in
          let moved' = moved ∙ ap (λ k. get_or buffer k 0) ix in ground (arith, past, moved', e)
      | inr before ↦ ground (arith, before, e)
    ]

-- A run of the loop: `n` bytes are laid over the file, `actual_size` and `offset` move on by `n`,
-- and these are all bytes when there is memory for two calls a byte.
abbrev Wrote : List (Option Page) → ℕ → ℕ → List ℕ → ℕ → List Bool → ℕ → Written → Type 0
Wrote pages offset remaining buffer actual answers n w =
    (n ≤ remaining)
    × (Granted (2 * remaining) answers → n ≡ remaining)
    × (w.actual_size ≡ actual + n)
    × (w.offset ≡ offset + n)
    × ((i : ℕ) → byte_at w.pages i ≡ overlay (byte_at pages) offset n buffer i)

-- A round of the loop that has its page.
write_loop-round :
    (fuel : ℕ) (pages : List (Option Page)) (offset remaining : ℕ) (buffer : List ℕ) (actual : ℕ)
    (answers : List Bool) (page : Page) (c : ℕ)
    → remaining == 0 ≡ false
    → (walk_page_alloc pages (offset / page_size) answers).0 ≡ some page
    → (ramfs_get_chunk_info offset remaining).2 ≡ c
    → offset + c < u64_mod
    → actual + c < u64_mod
    → write_loop (suc fuel) pages offset remaining buffer actual answers
      ≡ write_loop fuel
          (set
            (walk_page_alloc pages (offset / page_size) answers).1
            (offset / page_size)
            (some (page_write page (offset % page_size) c buffer)))
          (offset + c)
          (remaining - c)
          (drop c buffer)
          (actual + c)
          (walk_page_alloc pages (offset / page_size) answers).2
unfolding write_loop ramfs_get_chunk_info
write_loop-round fuel pages offset remaining buffer actual answers page c e got chunk k l =
    let m : (offset + c) % u64_mod ≡ offset + c = omega arith in
    let m' : (actual + c) % u64_mod ≡ actual + c = omega arith in
    rw (e, write_loop, got, chunk, m, m') refl

write_loop_lem :
    (fuel : ℕ) (pages : List (Option Page)) (offset remaining : ℕ) (buffer : List ℕ) (actual : ℕ)
    (answers : List Bool)
    → remaining < fuel
    → offset + remaining < u64_mod
    → actual + remaining < u64_mod
    → (n : ℕ) × (w : Written) × (write_loop fuel pages offset remaining buffer actual answers
        ≡ some w)
      × Wrote pages offset remaining buffer actual answers n w
unfolding write_loop
write_loop_lem zero pages offset remaining buffer actual answers h k l = absurd (omega arith)
write_loop_lem (suc fuel) pages offset remaining buffer actual answers h k l =
    let stop : List (Option Page) → List Bool → Written =
      λ p a. record { pages = p; actual_size = actual; offset = offset; answers = a } in
    let c = (ramfs_get_chunk_info offset remaining).2 in
    let b = chunk_size_lem offset remaining in
    let index = offset / page_size in
    let pages' = (walk_page_alloc pages index answers).1 in
    let answers' = (walk_page_alloc pages index answers).2 in
    let (found, same) = walk_page_alloc_lem pages index answers (omega arith) in
    let (used, le_used, left, enough) = walk_page_alloc-Uses pages index answers (omega arith) in
    elim (Bool-cases (remaining == 0)) [
      | inl e ↦ (
        0,
        stop pages answers,
        rw (e, write_loop) refl,
        (omega arith, λ g. sym (==→eq remaining 0 e), omega arith, omega arith, λ i. ground arith),
      )
      | inr e ↦ elim found [
        | inl failed ↦ (
          0,
          stop pages' answers',
          rw (e, write_loop, failed) refl,
          (
            omega arith,
            λ g. absurd (enough (λ i h'. g i (omega (arith, ==→ne remaining 0 e))) failed),
            omega arith,
            omega arith,
            λ i. ground (arith, same (i / page_size) (i % page_size)),
          ),
        )
        | inr (page, got, room, at) ↦
            let next_pages =
              set pages' index (some (page_write page (offset % page_size) c buffer)) in
            let laid : (i : ℕ) → byte_at next_pages i ≡ overlay (byte_at pages) offset c buffer i =
              λ i.
                page_write_lem pages' page offset c buffer i at room b.1
                ∙ ground (arith, same (i / page_size) (i % page_size)) in
            let round =
              write_loop-round fuel pages offset remaining buffer actual answers page c e got refl
                (omega (arith, b)) (omega (arith, b)) in
            let (n, w, eq, (le, all, size, end, bytes)) =
              write_loop_lem fuel next_pages (offset + c) (remaining - c) (drop c buffer)
                (actual + c) answers' (omega (arith, b, ==→ne remaining 0 e)) (omega (arith, b))
                (omega (arith, b)) in
            let whole : Granted (2 * remaining) answers → c + n ≡ remaining = λ g. omega (
              arith,
              b,
              all (λ i h'.
                  ap (λ a. get_or a i false) left
                  ∙ Granted-drop (2 * (remaining - c)) used answers
                      (λ j l'. g j (omega (arith, b, le_used, ==→ne remaining 0 e))) i h'),
            ) in
            (
              c + n,
              w,
              round ∙ eq,
              (
                omega (arith, b, le),
                whole,
                omega (arith, size),
                omega (arith, end),
                λ i.
                    bytes i
                    ∙ overlay-overlay (byte_at pages) (byte_at next_pages) offset c n buffer i
                        (laid i),
              ),
            )
      ]
    ]

-- What a write of `n` bytes makes of a file: it grows to `offset + n` if it was shorter and `n` is
-- not 0, and its bytes are the old ones with the first `n` of the buffer laid over them.
abbrev pub FileWritten : File → ℕ → List ℕ → ℕ → File → Type 0
FileWritten f offset buffer n f' =
    (f'.flags ≡ f.flags)
    × (f'.size ≡ (if ltb 0 n && ltb f.size (offset + n) then offset + n else f.size))
    × ((i : ℕ) → byte_at f'.pages i ≡ overlay (byte_at f.pages) offset n buffer i)

ramfs_ops_write-write_loop :
    (f : File) (offset : ℕ) (buffer : List ℕ) (answers : List Bool) (w : Written)
    → has_flag f.flags vfs_file ≡ true
    → write_loop (suc (length buffer)) f.pages offset (length buffer) buffer 0 answers ≡ some w
    → ramfs_ops_write f offset buffer answers
      ≡ ok (
          some (
            record f {
              size = if ltb 0 w.actual_size && ltb f.size w.offset then w.offset else f.size;
              pages = w.pages;
            },
            w.actual_size,
            w.answers,
          ))
unfolding ramfs_ops_write
ramfs_ops_write-write_loop f offset buffer answers w flag e = rw (flag, e) refl

pub write_file :
    (f : File) (offset : ℕ) (buffer : List ℕ) (answers : List Bool)
    → offset + length buffer < u64_mod
    → has_flag f.flags vfs_file ≡ true
    → (n : ℕ) × (f' : File) × (answers' : List Bool) × (ramfs_ops_write f offset buffer answers
        ≡ ok (some (f', n, answers')))
      × (n ≤ length buffer)
      × (Granted (2 * length buffer) answers → n ≡ length buffer)
      × FileWritten f offset buffer n f'
write_file f offset buffer answers h flag =
    let (n, w, eq, (le, all, size, end, bytes)) =
      write_loop_lem (suc (length buffer)) f.pages offset (length buffer) buffer 0 answers
        (omega arith) h (omega arith) in
    let call = ramfs_ops_write-write_loop f offset buffer answers w flag eq in
    let n' : w.actual_size ≡ n = omega (arith, size) in
    let f' : File = record f {
      size = if ltb 0 w.actual_size && ltb f.size w.offset then w.offset else f.size;
      pages = w.pages;
    } in
    (
      n,
      f',
      w.answers,
      call ∙ ap (λ k. ok (some (f', k, w.answers))) n',
      le,
      all,
      (refl, rw (n', end) refl, bytes),
    )

-- On a file, `ramfs_ops_write` always comes to an end and returns a count `n` of at most the length
-- of the buffer. The first `n` bytes of the buffer then stand at `offset`, every other byte of
-- the file is as before (a hole is zeros), and the file has grown to `offset + n` if it was
-- shorter and `n` is not 0. The end of the write is below 2^64; memory may fail at any call.
pub ramfs_ops_write-overlay :
    (f : File) (offset : ℕ) (buffer : List ℕ) (answers : List Bool)
    → offset + length buffer < u64_mod
    → has_flag f.flags vfs_file ≡ true
    → (n : ℕ) × (f' : File) × (answers' : List Bool) × (ramfs_ops_write f offset buffer answers
        ≡ ok (some (f', n, answers')))
      × (n ≤ length buffer)
      × FileWritten f offset buffer n f'
ramfs_ops_write-overlay f offset buffer answers h flag =
    let (n, f', answers', call, le, all, written) = write_file f offset buffer answers h flag in
    (n, f', answers', call, le, written)
