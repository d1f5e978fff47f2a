-- ===== src/Ramfs.antt =====
-- kernel/src/fs/ramfs/ramfs.c, the data of a file: a sparse array of pages, read and written in
-- chunks that end at page boundaries. A page that is not allocated is `none`; an allocated one is
-- owned by its entry, and is the function from offsets to bytes that it holds. The answers of
-- `krealloc` and `pmm_alloc` come in order from a list: `true` is memory, `false` or its end failure.
pub mod Pages
pub mod Grow
pub mod Memory
pub mod Read
pub mod Write
pub mod RoundTrip
pub mod Dirs
pub mod Tree
pub mod Create
pub mod Paths
mod Tests
mod DirTests
use Prim.Native.Nat.{bit_and}
use pros.Common.{
  ℕ, zero, suc, ◌+◌, ◌-◌, ◌*◌, ◌/◌, ◌%◌, Bool, true, false, not, ◌&&◌, ◌||◌, Option, none, some,
  List, [], ◌∷◌, ◌++◌, length, get_or, set, drop, take, replicate, add64, mul64, ltb, leb, ◌==◌,
  if◌then◌else◌, Res, ok, err,
}
use pros.Pmm.{page_size}

abbrev pub vfs_file : ℕ
vfs_file = 0x01

abbrev pub vfs_directory : ℕ
vfs_directory = 0x02

abbrev pub einval : ℕ
einval = 22

abbrev pub has_flag : ℕ → ℕ → Bool
has_flag flags bit = not (bit_and flags bit == 0)

abbrev pub Page : Type 0
Page = ℕ → ℕ

abbrev pub zero_page : Page
zero_page i = 0

-- A file: `flags` and `size` of `struct vfs_node`, `pages` of `struct ramfs_node_data`, whose
-- `page_count` is the length of the list.
pub record File : Type 0 where
  pub flags : ℕ
  pub size : ℕ
  pub pages : List (Option Page)

-- The `while` loop of `ramfs_walk_page` that doubles the page count, on fuel.
pub grow : ℕ → ℕ → ℕ → Option ℕ
grow zero new_count index = none
grow (suc fuel) new_count index = elim (leb new_count index) [
  | true ↦ grow fuel (mul64 new_count 2) index
  | false ↦ some new_count
]

abbrev pub next_answer : List Bool → Bool × List Bool
next_answer [] = (false, [])
next_answer (a ∷ rest) = (a, rest)

-- The first half of `ramfs_walk_page`: enough entries for `index`, or failure.
pub grow_pages : List (Option Page) → ℕ → List Bool → Option (List (Option Page)) × List Bool
unfolding grow
grow_pages pages index answers =
    let page_count = length pages in
    let first = if page_count == 0 then 4 else mul64 page_count 2 in
    let (granted, answers') = next_answer answers in
    if ltb index page_count then (some pages, answers) else elim (grow (suc index) first index) [
      | none ↦ (none, answers)
      | some new_count ↦
          if granted
          then (some (pages ++ replicate (new_count - page_count) none), answers')
          else (none, answers')
    ]

-- The second half: the page at `index`, allocated and zeroed if it is not there.
pub touch_page : List (Option Page) → ℕ → List Bool → Option Page × List (Option Page) × List Bool
touch_page pages index answers =
    let (granted, answers') = next_answer answers in
    elim (get_or pages index none) [
      | some page ↦ (some page, pages, answers)
      | none ↦
          if granted
          then (some zero_page, set pages index (some zero_page), answers')
          else (none, pages, answers')
    ]

-- `ramfs_walk_page` with `alloc`.
pub walk_page_alloc :
    List (Option Page) → ℕ → List Bool → Option Page × List (Option Page) × List Bool
unfolding grow_pages touch_page
walk_page_alloc pages index answers =
    let (grown, answers') = grow_pages pages index answers in
    elim grown [ none ↦ (none, pages, answers') | some pages' ↦ touch_page pages' index answers' ]

-- `ramfs_walk_page` without: it only looks.
pub walk_page : List (Option Page) → ℕ → Option Page
walk_page pages index = if ltb index (length pages) then get_or pages index none else none

-- `ramfs_get_chunk_info`: page index, page offset, chunk size.
pub ramfs_get_chunk_info : ℕ → ℕ → ℕ × ℕ × ℕ
ramfs_get_chunk_info offset remaining =
    let page_offset = offset % page_size in
    let chunk_size = page_size - page_offset in
    (offset / page_size, page_offset, if ltb remaining chunk_size then remaining else chunk_size)

-- `memcpy` out of a page.
pub page_bytes : Page → ℕ → ℕ → List ℕ
page_bytes page offset zero = []
page_bytes page offset (suc n) = page offset ∷ page_bytes page (offset + 1) n

-- `memcpy` of the first `n` bytes of `buffer` into a page.
pub page_write : Page → ℕ → ℕ → List ℕ → Page
page_write page offset n buffer i =
    if leb offset i && ltb i (offset + n) then get_or buffer (i - offset) 0 else page i

-- The bytes that one round of the loop of `ramfs_ops_read` copies.
unfoldable pub read_chunk : List (Option Page) → ℕ → ℕ → ℕ → List ℕ
unfolding walk_page page_bytes
read_chunk pages page_index page_offset chunk_size = elim (walk_page pages page_index) [
  | none ↦ replicate chunk_size 0
  | some page ↦ page_bytes page page_offset chunk_size
]

-- The loop, on fuel: the bytes that it leaves in the buffer, or `none` when the fuel is out.
read_loop : ℕ → List (Option Page) → ℕ → ℕ → Option (List ℕ)
unfolding read_chunk ramfs_get_chunk_info
read_loop zero pages offset remaining = none
read_loop (suc fuel) pages offset remaining =
    let (page_index, page_offset, chunk_size) = ramfs_get_chunk_info offset remaining in
    let rest = read_loop fuel pages (add64 offset chunk_size) (remaining - chunk_size) in
    elim (remaining == 0) [
      | true ↦ some []
      | false ↦ elim rest [
        | none ↦ none
        | some bytes ↦ some (read_chunk pages page_index page_offset chunk_size ++ bytes)
      ]
    ]

-- `ramfs_ops_read` on a node and a buffer that are not NULL; the number that it returns is the
-- length of the bytes. The fuel is one more than the bytes to copy.
unfoldable pub ramfs_ops_read : File → ℕ → ℕ → Res (Option (List ℕ))
unfolding read_loop
ramfs_ops_read f offset size =
    let max_size = f.size - offset in
    let n = if ltb max_size size then max_size else size in
    if not (has_flag f.flags vfs_file)
    then err einval
    else if leb f.size offset
    then ok (some [])
    else ok (read_loop (suc n) f.pages offset n)

-- What the loop of `ramfs_ops_write` comes to: the pages, `actual_size` and `offset`.
pub record Written : Type 0 where
  pub pages : List (Option Page)
  pub actual_size : ℕ
  pub offset : ℕ
  pub answers : List Bool

pub write_loop : ℕ → List (Option Page) → ℕ → ℕ → List ℕ → ℕ → List Bool → Option Written
unfolding walk_page_alloc ramfs_get_chunk_info page_write
write_loop zero pages offset remaining buffer actual answers = none
write_loop (suc fuel) pages offset remaining buffer actual answers =
    let (page_index, page_offset, chunk_size) = ramfs_get_chunk_info offset remaining in
    let (got, pages', answers') = walk_page_alloc pages page_index answers in
    elim (remaining == 0) [
      | true ↦
          some (record { pages = pages; actual_size = actual; offset = offset; answers = answers })
      | false ↦ elim got [
        | none ↦
            some
              (record { pages = pages'; actual_size = actual; offset = offset; answers = answers' })
        | some page ↦
            write_loop fuel
              (set pages' page_index (some (page_write page page_offset chunk_size buffer)))
              (add64 offset chunk_size) (remaining - chunk_size) (drop chunk_size buffer)
              (add64 actual chunk_size) answers'
      ]
    ]

-- `ramfs_ops_write` of a buffer whose length is the size: the file, the count that it returns, and
-- the answers that are left.
unfoldable pub ramfs_ops_write : File → ℕ → List ℕ → List Bool → Res (Option (File × ℕ × List Bool))
unfolding write_loop
ramfs_ops_write f offset buffer answers =
    let size = length buffer in
    if not (has_flag f.flags vfs_file)
    then err einval
    else elim (write_loop (suc size) f.pages offset size buffer 0 answers) [
      | none ↦ ok none
      | some w ↦ ok (
          some (
            record f {
              size = if ltb 0 w.actual_size && ltb f.size w.offset then w.offset else f.size;
              pages = w.pages;
            },
            w.actual_size,
            w.answers,
          ))
    ]
