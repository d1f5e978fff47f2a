-- ===== src/Ldisc.antt =====
-- kernel/src/core/ldisc.c: the canonical-mode line discipline. A pointer argument is an `Option`,
-- `none` for NULL. The characters that a call hands to the `echo` callback are part of its result.
pub mod Editor
pub mod Refine
pub mod Session
mod Tests
use pros.Common.{
  ℕ, ◌+◌, ◌-◌, Bool, true, false, Option, none, some, List, [], ◌∷◌, set, take, drop, add64, sub64,
  replicate, ltb, ◌==◌, ◌||◌, if◌then◌else◌,
}

abbrev pub ldisc_buf_size : ℕ
ldisc_buf_size = 256

abbrev pub ldisc_bs : ℕ
ldisc_bs = 0x08

abbrev pub ldisc_del : ℕ
ldisc_del = 0x7f

-- `struct ldisc`; of the callback only whether it is set.
pub record Ldisc : Type 0 where
  pub buf : List ℕ
  pub len : ℕ
  pub consumed : ℕ
  pub complete : Bool
  pub echo : Bool

pub ld_echo : Ldisc → ℕ → List ℕ
ld_echo ld c = if ld.echo then c ∷ [] else []

-- The loop over a text that holds no NUL; `ld` does not change on the way.
pub ld_echo_str : Ldisc → List ℕ → List ℕ
ld_echo_str ld [] = []
ld_echo_str ld (c ∷ s) = if ld.echo then c ∷ ld_echo_str ld s else ld_echo_str ld s

unfoldable pub ldisc_init : Option Ldisc → Bool → Option Ldisc
ldisc_init none echo = none
ldisc_init (some ld) echo =
    some (record ld { len = 0; consumed = 0; complete = false; echo = echo })

-- `ldisc_feed` below its guards: the new state, the verdict and what is echoed.
feed_erase : Ldisc → Ldisc × Bool × List ℕ
unfolding ld_echo_str
feed_erase ld =
    if ltb 0 ld.len
    then (let shorter = record ld { len = ld.len - 1 } in
        (shorter, false, ld_echo_str shorter (0x08 ∷ 0x20 ∷ 0x08 ∷ [])))
    else (ld, false, [])

feed_newline : Ldisc → Ldisc × Bool × List ℕ
unfolding ld_echo
feed_newline ld =
    let stored =
      if ltb ld.len ldisc_buf_size
      then record ld { buf = set ld.buf ld.len b'\n'; len = add64 ld.len 1 }
      else ld in
    (record stored { complete = true }, true, ld_echo stored b'\n')

feed_char : Ldisc → ℕ → Ldisc × Bool × List ℕ
unfolding ld_echo
feed_char ld byte =
    if ltb byte 0x20
    then (ld, false, [])
    else if ltb ld.len (ldisc_buf_size - 1)
    then (let longer = record ld { buf = set ld.buf ld.len byte; len = add64 ld.len 1 } in
        (longer, false, ld_echo longer byte))
    else (ld, false, [])

feed_byte : Ldisc → ℕ → Ldisc × Bool × List ℕ
unfolding feed_erase feed_newline feed_char
feed_byte ld byte =
    if ld.complete
    then (ld, true, [])
    else if (byte == ldisc_bs) || (byte == ldisc_del)
    then feed_erase ld
    else if (byte == b'\r') || (byte == b'\n')
    then feed_newline ld
    else feed_char ld byte

pub ldisc_feed : Option Ldisc → ℕ → Option Ldisc × Bool × List ℕ
unfolding feed_byte
ldisc_feed none byte = (none, false, [])
ldisc_feed (some ld) byte =
    let (ld', ready, echoed) = feed_byte ld byte in (some ld', ready, echoed)

pub ldisc_ready : Option Ldisc → Bool
ldisc_ready none = false
ldisc_ready (some ld) = ld.complete

-- `ldisc_drain` below its guards: the new state and the bytes that it copies to `out`, whose number
-- is the value that it returns.
drain_bytes : Ldisc → ℕ → Ldisc × List ℕ
drain_bytes ld size =
    let avail = sub64 ld.len ld.consumed in
    let n = if ltb size avail then size else avail in
    let taken = add64 ld.consumed n in
    (
      if taken == ld.len
          then record ld { len = 0; consumed = 0; complete = false }
          else record ld { consumed = taken },
      take n (drop ld.consumed ld.buf),
    )

-- `out` says whether the pointer is set.
pub ldisc_drain : Option Ldisc → Bool → ℕ → Option Ldisc × List ℕ
unfolding drain_bytes
ldisc_drain none out size = (none, [])
ldisc_drain (some ld) out size =
    if out
    then if ld.complete
      then (let (ld', bytes) = drain_bytes ld size in (some ld', bytes))
      else (some ld, [])
    else (some ld, [])
