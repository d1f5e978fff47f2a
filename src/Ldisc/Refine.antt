-- ===== src/Ldisc/Refine.antt =====
-- kernel/src/core/ldisc.c against the line editor: each call of a valid discipline does to its line
-- what the editor does.
use pros.Common.{
  ℕ, zero, suc, ◌+◌, ◌-◌, ◌≤◌, ◌<◌, ◌≡◌, ◌⊎◌, refl, sym, ap, true, false, some, List, [], ◌∷◌, ◌++◌,
  arith, inl, inr, length, set, take, drop, add64, sub64, ltb, if◌then◌else◌, Bool-cases, ltb→lt,
  ltb→ge, gt→leb, le→leb, lt→ltb, ge→ltb, ne→==, eq→==, length-set, length-take, take-set_end,
  drop-drop, length-drop, take_ge_length,
}
use pros.Ldisc.{Ldisc, ldisc_feed, ldisc_drain, feed_byte, drain_bytes}
use pros.Ldisc.Editor.{
  Line, typing, finished, erase_last, type_byte, echo_byte, is_finished, read_line,
}

-- The state between two calls.
pub record IsValid (ld : Ldisc) : Type 0 where
  pub storage : length ld.buf ≡ 256
  pub open_len : ld.complete ≡ false → ld.len ≤ 255
  pub open_consumed : ld.complete ≡ false → ld.consumed ≡ 0
  pub done_len : ld.complete ≡ true → ld.len ≤ 256
  pub done_consumed : ld.complete ≡ true → ld.consumed < ld.len

-- The line that a discipline stands for.
abbrev pub line_of : Ldisc → Line
line_of ld =
    if ld.complete
    then finished (drop ld.consumed (take ld.len ld.buf))
    else typing (take ld.len ld.buf)

erase_last-take : (n : ℕ) (xs : List ℕ) → n ≤ length xs → erase_last (take n xs) ≡ take (n - 1) xs
unfolding erase_last
erase_last-take zero xs h = refl
erase_last-take (suc zero) [] h = absurd (omega arith)
erase_last-take (suc (suc n)) [] h = absurd (omega arith)
erase_last-take (suc zero) (x ∷ xs) h = refl
erase_last-take (suc (suc n)) (x ∷ []) h = absurd (omega arith)
erase_last-take (suc (suc n)) (x ∷ y ∷ xs) h =
    let e : suc (suc n) - 1 ≡ suc n = omega arith in
    let ih = erase_last-take (suc n) (y ∷ xs) (omega arith) in
    let e' : suc n - 1 ≡ n = omega arith in rw e (ap (λ t. x ∷ t) (rw e' at ih))

take-set_next :
    (xs : List ℕ) (i v : ℕ)
    → length xs ≡ 256
    → i < 256
    → take (add64 i 1) (set xs i v) ≡ take i xs ++ (v ∷ [])
take-set_next xs i v size h =
    let e : add64 i 1 ≡ suc i = omega arith in rw e (take-set_end xs i v (omega arith))

-- `take` and `drop` of a stored line, as the drain sees it.
take-drop-take :
    (n i len : ℕ) (xs : List ℕ) → i + n ≤ len → take n (drop i xs) ≡ take n (drop i (take len xs))
take-drop-take n zero len xs h = go n len xs (omega arith)
  where
    go : (n len : ℕ) (xs : List ℕ) → n ≤ len → take n xs ≡ take n (take len xs)
    go zero len xs h = refl
    go (suc n) zero xs h = absurd (omega arith)
    go (suc n) (suc len) [] h = refl
    go (suc n) (suc len) (x ∷ xs) h = ap (λ t. x ∷ t) (go n len xs (omega arith))
take-drop-take n (suc i) zero xs h = absurd (omega arith)
take-drop-take zero (suc i) (suc len) [] h = refl
take-drop-take (suc n) (suc i) (suc len) [] h = refl
take-drop-take n (suc i) (suc len) (x ∷ xs) h = take-drop-take n i len xs (omega arith)

module _ {ld : Ldisc} (v : IsValid ld) (typed : ld.complete ≡ false) where
  length-line : length (take ld.len ld.buf) ≡ ld.len
  length-line = omega (arith, length-take ld.len ld.buf, v.storage, v.open_len typed)

module _ {ld : Ldisc} (v : IsValid ld) (byte : ℕ) where
  feed_byte-IsValid : IsValid (feed_byte ld byte).0
  unfolding feed_byte
  feed_byte-IsValid = ground (
    arith,
    v.storage,
    v.open_len,
    v.open_consumed,
    v.done_len,
    v.done_consumed,
    length-set ld.buf ld.len byte,
    length-set ld.buf ld.len b'\n',
  )

  feed_byte-ready : (feed_byte ld byte).1 ≡ is_finished (type_byte (line_of ld) byte)
  unfolding feed_byte type_byte is_finished
  feed_byte-ready = ground arith

  feed_byte-echo : (feed_byte ld byte).2 ≡ (if ld.echo then echo_byte (line_of ld) byte else [])
  unfolding feed_byte echo_byte
  feed_byte-echo = ground (arith, v.open_len, length-take ld.len ld.buf, v.storage)

  feed_byte-line : line_of (feed_byte ld byte).0 ≡ type_byte (line_of ld) byte
  unfolding feed_byte type_byte
  feed_byte-line = ground (
    arith,
    v.open_len,
    length-take ld.len ld.buf,
    v.storage,
    v.open_consumed,
    erase_last-take ld.len ld.buf,
    take-set_next ld.buf ld.len byte,
    take-set_next ld.buf ld.len b'\n',
  )

-- Draining a finished line, on the two ways that the `size < avail` test goes.
module _ {ld : Ldisc} (v : IsValid ld) (done : ld.complete ≡ true) (size : ℕ) where
  rest : List ℕ
  rest = drop ld.consumed (take ld.len ld.buf)

  length-rest : length rest ≡ ld.len - ld.consumed
  unfolding rest
  length-rest = omega (
    arith,
    length-take ld.len ld.buf,
    length-drop ld.consumed (take ld.len ld.buf),
    v.storage,
    v.done_len done,
  )

  avail : sub64 ld.len ld.consumed ≡ ld.len - ld.consumed
  avail = omega (arith, v.done_len done, v.done_consumed done)

  drain_partly :
      size < ld.len - ld.consumed
      → (drain_bytes ld size ≡ (record ld { consumed = ld.consumed + size }, take size rest))
        × (drop (ld.consumed + size) (take ld.len ld.buf) ≡ drop size rest)
        × IsValid (record ld { consumed = ld.consumed + size })
  unfolding drain_bytes rest
  drain_partly h =
      let short = lt→ltb size (ld.len - ld.consumed) h in
      let sum : add64 ld.consumed size ≡ ld.consumed + size = omega (arith, v.done_len done) in
      let more = ne→== (ld.consumed + size) ld.len (omega arith) in
      (
        rw (avail, short, sum, more, take-drop-take size ld.consumed ld.len ld.buf (omega arith)),
        sym (drop-drop size ld.consumed (take ld.len ld.buf)),
        ground (arith, v.storage, v.done_len done, done),
      )

  drain_whole :
      ld.len - ld.consumed ≤ size
      → (drain_bytes ld size
          ≡ (record ld { len = 0; consumed = 0; complete = false }, take size rest))
        × IsValid (record ld { len = 0; consumed = 0; complete = false })
  unfolding drain_bytes rest
  drain_whole h =
      let long = ge→ltb size (ld.len - ld.consumed) h in
      let n = ld.len - ld.consumed in
      let sum : add64 ld.consumed n ≡ ld.len =
        omega (arith, v.done_len done, v.done_consumed done) in
      let all = eq→== ld.len ld.len refl in
      let enough : ld.consumed + n ≤ ld.len = omega (arith, v.done_consumed done) in
      let bytes = take-drop-take n ld.consumed ld.len ld.buf enough in
      let whole = take_ge_length n rest (omega (arith, length-rest)) in
      let whole' = take_ge_length size rest (omega (arith, length-rest)) in
      (rw (avail, long, sum, all, bytes, whole, whole'), ground (arith, v.storage))

-- One keystroke on a valid discipline: its line becomes what the editor makes of it, the verdict is
-- whether that line is finished, and the echo callback, where one is set, gets what the editor
-- shows. The discipline stays valid and keeps its callback.
pub feed_refines :
    (byte : ℕ) {ld : Ldisc}
    → IsValid ld
    → (ld' : Ldisc) × (ldisc_feed (some ld) byte ≡ (
      some ld',
      is_finished (type_byte (line_of ld) byte),
      if ld.echo then echo_byte (line_of ld) byte else [],
    ))
      × (line_of ld' ≡ type_byte (line_of ld) byte)
      × IsValid ld'
      × (ld'.echo ≡ ld.echo)
unfolding ldisc_feed
feed_refines byte {ld} v = (
  (feed_byte ld byte).0,
  ground (arith, feed_byte-ready v byte, feed_byte-echo v byte),
  feed_byte-line v byte,
  feed_byte-IsValid v byte,
  keep,
)
  where
    keep : (feed_byte ld byte).0.echo ≡ ld.echo
    keep = unfold feed_byte in ground arith

-- One read of at most `size` bytes from a valid discipline: the bytes that it gets and the line
-- that it leaves are those of the editor's read, and the discipline stays valid. It keeps its buffer
-- and its callback, and nothing at all is changed unless a line is finished.
pub drain_refines :
    (size : ℕ) {ld : Ldisc}
    → IsValid ld
    → (ld' : Ldisc) × (ldisc_drain (some ld) true size
        ≡ (some ld', (read_line (line_of ld) size).1))
      × (line_of ld' ≡ (read_line (line_of ld) size).0)
      × IsValid ld'
      × (ld'.echo ≡ ld.echo)
      × (ld'.buf ≡ ld.buf)
      × ((ld.complete ≡ true) ⊎ (ld' ≡ ld))
unfolding ldisc_drain read_line rest
drain_refines size {ld} v = elim (Bool-cases ld.complete) [
  | inr open_line ↦ (ld, ground arith, ground arith, v, refl, refl, inr refl)
  | inl done ↦ elim (Bool-cases (ltb size (ld.len - ld.consumed))) [
    | inl short ↦
        let (call, left, v') = drain_partly v done size (ltb→lt _ _ short) in
        let measure = length-rest v done size in
        let more = gt→leb (length (rest v done size)) size (omega (arith, ltb→lt _ _ short)) in
        (
          record ld { consumed = ld.consumed + size },
          ground (arith, call, more),
          ground (arith, left, more),
          v',
          refl,
          refl,
          inl done,
        )
    | inr long ↦
        let (call, v') = drain_whole v done size (ltb→ge _ _ long) in
        let measure = length-rest v done size in
        let all = le→leb (length (rest v done size)) size (omega (arith, ltb→ge _ _ long)) in
        (
          record ld { len = 0; consumed = 0; complete = false },
          ground (arith, call, all),
          ground (arith, all),
          v',
          refl,
          refl,
          inl done,
        )
  ]
]
