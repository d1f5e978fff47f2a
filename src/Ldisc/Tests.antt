-- ===== src/Ldisc/Tests.antt =====
-- The line discipline of kernel/src/core/ldisc.c at concrete inputs.
use pros.Common.{◌≡◌, ◌⊎◌, refl, true, false, some, [], ◌∷◌, ◌++◌, arith, replicate, if◌then◌else◌}
use pros.Ldisc.{Ldisc, ldisc_init, ldisc_feed, ldisc_drain}
use pros.Ldisc.Editor.{is_finished, type_byte, echo_byte, read_line}
use pros.Ldisc.Refine.{IsValid, line_of, feed_refines, drain_refines}
use pros.Ldisc.Session.{type_all, read_all, read_all-type_all}

abbrev fresh : Ldisc
fresh = record { buf = replicate 256 0; len = 0; consumed = 0; complete = false; echo = true }

-- "hi" and a newline, of which one byte was read.
abbrev half_read : Ldisc
half_read = record {
  buf = b'h' ∷ b'i' ∷ b'\n' ∷ replicate 253 0;
  len = 3;
  consumed = 1;
  complete = true;
  echo = true;
}

init_fresh :
    ldisc_init (some half_read) true
    ≡ some (record half_read { len = 0; consumed = 0; complete = false })
unfolding ldisc_init
init_fresh = refl

fresh-IsValid : IsValid fresh
fresh-IsValid = record {
  storage = refl;
  open_len = λ h. omega arith;
  open_consumed = λ h. refl;
  done_len = λ h. omega arith;
  done_consumed = λ h. cc;
}

half_read-IsValid : IsValid half_read
half_read-IsValid = record {
  storage = refl;
  open_len = λ h. cc;
  open_consumed = λ h. cc;
  done_len = λ h. omega arith;
  done_consumed = λ h. omega arith;
}

-- "ab", a backspace, "c", newline: two reads of two bytes.
erase_and_read :
    read_all (type_all (some fresh) (b'a' ∷ b'b' ∷ 0x7f ∷ b'c' ∷ b'\r' ∷ [])) (2 ∷ 2 ∷ [])
    ≡ b'a' ∷ b'c' ∷ b'\n' ∷ []
unfolding read_all type_all ldisc_feed ldisc_drain
erase_and_read = refl

feed_refines_example :
    (ld' : Ldisc) × (ldisc_feed (some fresh) b'x' ≡ (
      some ld',
      is_finished (type_byte (line_of fresh) b'x'),
      if true then echo_byte (line_of fresh) b'x' else [],
    ))
    × (line_of ld' ≡ type_byte (line_of fresh) b'x')
    × IsValid ld'
    × (ld'.echo ≡ true)
feed_refines_example = feed_refines b'x' fresh-IsValid

drain_refines_example :
    (ld' : Ldisc) × (ldisc_drain (some half_read) true 1
      ≡ (some ld', (read_line (line_of half_read) 1).1))
    × (line_of ld' ≡ (read_line (line_of half_read) 1).0)
    × IsValid ld'
    × (ld'.echo ≡ true)
    × (ld'.buf ≡ half_read.buf)
    × ((half_read.complete ≡ true) ⊎ (ld' ≡ half_read))
drain_refines_example = drain_refines 1 half_read-IsValid

read_all-type_all_example :
    read_all (type_all (some fresh) ((b'l' ∷ b's' ∷ []) ++ (b'\n' ∷ []))) (1 ∷ 8 ∷ [])
    ≡ b'l' ∷ b's' ∷ b'\n' ∷ []
read_all-type_all_example =
    read_all-type_all (b'l' ∷ b's' ∷ []) (1 ∷ 8 ∷ []) fresh-IsValid refl (omega arith) (omega arith)
