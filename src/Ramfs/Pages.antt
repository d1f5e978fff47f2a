-- ===== src/Ramfs/Pages.antt =====
-- The bytes that a sparse page array of kernel/src/fs/ramfs/ramfs.c stands for.
use pros.Common.{
  ℕ, zero, suc, ◌+◌, ◌*◌, ◌/◌, ◌%◌, ◌≤◌, ◌<◌, ◌≡◌, refl, ap, sym, ◌∙◌, Option, none, some, List, [],
  ◌∷◌, ◌++◌, arith, length, get_or, replicate, ltb, Bool-cases, ltb→ge, inl, inr, get_or_ge,
}
use pros.Pmm.{page_size}
use pros.Ramfs.{Page, walk_page, page_bytes, read_chunk}

-- Byte `i` of the file; a page that is not there reads as zeros.
abbrev pub page_byte : Option Page → ℕ → ℕ
page_byte none i = 0
page_byte (some page) i = page i

abbrev pub byte_at : List (Option Page) → ℕ → ℕ
byte_at pages i = page_byte (get_or pages (i / page_size) none) (i % page_size)

-- `n` bytes from `start` on.
unfoldable pub bytes_from : (ℕ → ℕ) → ℕ → ℕ → List ℕ
bytes_from b start zero = []
bytes_from b start (suc n) = b start ∷ bytes_from b (start + 1) n

pub bytes_from-add :
    (b : ℕ → ℕ) (start m n : ℕ)
    → bytes_from b start (m + n) ≡ bytes_from b start m ++ bytes_from b (start + m) n
unfolding bytes_from
bytes_from-add b start zero n =
    let e : 0 + n ≡ n = omega arith in let e' : start + 0 ≡ start = omega arith in rw (e, e')
bytes_from-add b start (suc m) n =
    let e : suc m + n ≡ suc (m + n) = omega arith in
    let e' : start + suc m ≡ start + 1 + m = omega arith in
    rw (e, e') (ap (λ t. b start ∷ t) (bytes_from-add b (start + 1) m n))

pub bytes_from-ext :
    (b c : ℕ → ℕ) (start n : ℕ)
    → ((i : ℕ) → start ≤ i → i < start + n → b i ≡ c i)
    → bytes_from b start n ≡ bytes_from c start n
unfolding bytes_from
bytes_from-ext b c start zero same = refl
bytes_from-ext b c start (suc n) same =
    let rest = bytes_from-ext b c (start + 1) n (λ i lo hi. same i (omega arith) (omega arith)) in
    rw (same start (omega arith) (omega arith), rest)

pub walk_page-get_or :
    (pages : List (Option Page)) (index : ℕ) → walk_page pages index ≡ get_or pages index none
unfolding walk_page
walk_page-get_or pages index = elim (Bool-cases (ltb index (length pages))) [
  | inl e ↦ rw e
  | inr e ↦ rw (e, get_or_ge pages index none (ltb→ge index (length pages) e))
]

-- What one page holds at the offsets from `offset` on.
page_bytes-bytes_from :
    (o : Option Page) (pages : List (Option Page)) (index offset start n : ℕ)
    → get_or pages index none ≡ o
    → offset + n ≤ page_size
    → start ≡ index * page_size + offset
    → bytes_from (byte_at pages) start n ≡ bytes_from (page_byte o) offset n
unfolding bytes_from
page_bytes-bytes_from o pages index offset start zero e h k = refl
page_bytes-bytes_from o pages index offset start (suc n) e h k =
    let at : start / page_size ≡ index = omega arith in
    let in_page : start % page_size ≡ offset = omega arith in
    let rest =
      page_bytes-bytes_from o pages index (offset + 1) (start + 1) n e (omega arith)
        (omega arith) in
    rw (at, in_page, e, rest)

page_bytes_lem : (page : Page) (offset n : ℕ) → page_bytes page offset n ≡ bytes_from page offset n
unfolding page_bytes bytes_from
page_bytes_lem page offset zero = refl
page_bytes_lem page offset (suc n) = ap (λ t. page offset ∷ t) (page_bytes_lem page (offset + 1) n)

zeros_lem : (offset n : ℕ) → replicate n 0 ≡ bytes_from (page_byte none) offset n
unfolding bytes_from
zeros_lem offset zero = refl
zeros_lem offset (suc n) = ap (λ t. 0 ∷ t) (zeros_lem (offset + 1) n)

-- The bytes that one round of the read loop copies are those of the file.
pub read_chunk_lem :
    (pages : List (Option Page)) (start n : ℕ)
    → start % page_size + n ≤ page_size
    → read_chunk pages (start / page_size) (start % page_size) n
      ≡ bytes_from (byte_at pages) start n
unfolding read_chunk
read_chunk_lem pages start n h =
    rw (walk_page-get_or pages (start / page_size), read_chunk)
      (chunk (get_or pages (start / page_size) none)
        ∙ sym (
            page_bytes-bytes_from _ pages (start / page_size) (start % page_size) start n refl h
              (omega arith)))
  where
    chunk :
        (o : Option Page)
        → elim o [ none ↦ replicate n 0 | some page ↦ page_bytes page (start % page_size) n ]
          ≡ bytes_from (page_byte o) (start % page_size) n
    chunk none = zeros_lem (start % page_size) n
    chunk (some page) = page_bytes_lem page (start % page_size) n
