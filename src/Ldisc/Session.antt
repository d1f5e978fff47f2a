-- ===== src/Ldisc/Session.antt =====
-- Keystrokes and reads in sequence on one discipline of kernel/src/core/ldisc.c: a typed line comes
-- back whole, in reads of any sizes.
use pros.Common.{
  ℕ, ◌+◌, ◌≤◌, ◌<◌, ◌≡◌, refl, ap, ◌∙◌, ◌≢◌, true, Option, some, List, [], ◌∷◌, ◌++◌, arith, inl,
  inr, length, take, drop, leb, Bool-cases, leb→le, append_assoc, append-nil, length-append,
  take_ge_length, All, sum, take-add,
}
use pros.Ldisc.{Ldisc, ldisc_feed, ldisc_drain}
use pros.Ldisc.Editor.{Line, typing, finished, type_byte, read_line}
use pros.Ldisc.Refine.{IsValid, line_of, feed_refines, drain_refines}

-- The keystrokes in order.
unfoldable pub type_all : Option Ldisc → List ℕ → Option Ldisc
type_all ld [] = ld
type_all ld (byte ∷ keys) = type_all (ldisc_feed ld byte).0 keys

-- Reads of the given sizes in order: the bytes that they get, put together.
unfoldable pub read_all : Option Ldisc → List ℕ → List ℕ
read_all ld [] = []
read_all ld (size ∷ sizes) =
    let (ld', bytes) = ldisc_drain ld true size in bytes ++ read_all ld' sizes

-- The same on the editor's line.
edit_all : Line → List ℕ → Line
edit_all l [] = l
edit_all l (byte ∷ keys) = edit_all (type_byte l byte) keys

take_all : Line → List ℕ → List ℕ
take_all l [] = []
take_all l (size ∷ sizes) = (read_line l size).1 ++ take_all (read_line l size).0 sizes

type_all-edit_all :
    (keys : List ℕ) {ld : Ldisc}
    → IsValid ld
    → (ld' : Ldisc) × (type_all (some ld) keys ≡ some ld')
      × (line_of ld' ≡ edit_all (line_of ld) keys)
      × IsValid ld'
unfolding type_all edit_all
type_all-edit_all [] {ld} v = (ld, refl, refl, v)
type_all-edit_all (byte ∷ keys) {ld} v =
    let (ld', call, line, v', same) = feed_refines byte v in
    let (ld'', calls, lines, v'') = type_all-edit_all keys v' in
    (ld'', rw call calls, rw (← line) lines, v'')

read_all-take_all :
    (sizes : List ℕ) {ld : Ldisc}
    → IsValid ld
    → read_all (some ld) sizes ≡ take_all (line_of ld) sizes
unfolding read_all take_all
read_all-take_all [] v = refl
read_all-take_all (size ∷ sizes) v =
    let (ld', call, line, v', echo, kept, open_line) = drain_refines size v in
    rw (call, read_all-take_all sizes v', line)

take_all-typing : (line sizes : List ℕ) → take_all (typing line) sizes ≡ []
unfolding take_all read_line
take_all-typing line [] = refl
take_all-typing line (size ∷ sizes) = take_all-typing line sizes

take_all-finished : (rest sizes : List ℕ) → take_all (finished rest) sizes ≡ take (sum sizes) rest
unfolding take_all read_line
take_all-finished rest [] = refl
take_all-finished rest (size ∷ sizes) = elim (Bool-cases (leb (length rest) size)) [
  | inl all ↦
      let e = leb→le (length rest) size all in
      rw (
        all,
        take_all-typing [] sizes,
        append-nil,
        take_ge_length size rest e,
        take_ge_length (size + sum sizes) rest (omega arith),
      )
  | inr more ↦ rw (more, take_all-finished (drop size rest) sizes, take-add size (sum sizes) rest)
]

-- A byte that the discipline stores in a line.
abbrev pub IsPrintable : ℕ → Type 0
IsPrintable byte = (0x20 ≤ byte) × (byte ≢ 0x7f)

type_byte-printable :
    (line : List ℕ) (byte : ℕ)
    → IsPrintable byte
    → length line < 255
    → type_byte (typing line) byte ≡ typing (line ++ (byte ∷ []))
unfolding type_byte
type_byte-printable line byte p h = ground arith

edit_all-line :
    (keys line : List ℕ)
    → All IsPrintable keys
    → length line + length keys ≤ 255
    → edit_all (typing line) (keys ++ (b'\n' ∷ [])) ≡ finished (line ++ (keys ++ (b'\n' ∷ [])))
unfolding edit_all
edit_all-line [] line p h = unfold type_byte in refl
edit_all-line (byte ∷ keys) line p h =
    let step = type_byte-printable line byte p.0 (omega arith) in
    let size = length-append line (byte ∷ []) in
    ap (λ l. edit_all l (keys ++ (b'\n' ∷ []))) step
    ∙ edit_all-line keys (line ++ (byte ∷ [])) p.1 (omega arith)
    ∙ ap finished (append_assoc line (byte ∷ []) (keys ++ (b'\n' ∷ [])))

-- On a valid discipline with an empty line, at most 255 printable bytes and a newline, read back in
-- reads of any sizes, give the line's bytes with the newline, in order, each of them once, as far as
-- the sizes reach; reads beyond the line get nothing.
pub read_all-type_all :
    (keys sizes : List ℕ) {ld : Ldisc}
    → IsValid ld
    → line_of ld ≡ typing []
    → All IsPrintable keys
    → length keys ≤ 255
    → read_all (type_all (some ld) (keys ++ (b'\n' ∷ []))) sizes
      ≡ take (sum sizes) (keys ++ (b'\n' ∷ []))
read_all-type_all keys sizes {ld} v empty p h =
    let (ld', calls, line, v') = type_all-edit_all (keys ++ (b'\n' ∷ [])) v in
    rw (calls, read_all-take_all sizes v', line, empty, edit_all-line keys [] p (omega arith))
      (take_all-finished (keys ++ (b'\n' ∷ [])) sizes)
