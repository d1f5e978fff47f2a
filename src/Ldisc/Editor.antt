-- ===== src/Ldisc/Editor.antt =====
-- What the line discipline of kernel/src/core/ldisc.c is for, without its buffer: a line being
-- typed, or a finished line with the part of it that no reader has taken yet.
use pros.Common.{
  ℕ, Bool, true, false, List, [], ◌∷◌, ◌++◌, length, take, drop, ltb, leb, ◌==◌, ◌||◌,
  if◌then◌else◌,
}

pub data Line : Type 0 where
  typing : List ℕ → Line
  finished : List ℕ → Line

-- The longest line that can be typed, its newline not counted.
abbrev pub line_max : ℕ
line_max = 255

unfoldable pub is_erase : ℕ → Bool
is_erase byte = (byte == 0x08) || (byte == 0x7f)

unfoldable pub is_newline : ℕ → Bool
is_newline byte = (byte == b'\r') || (byte == b'\n')

-- The line without its last byte.
unfoldable pub erase_last : List ℕ → List ℕ
erase_last [] = []
erase_last (x ∷ []) = []
erase_last (x ∷ y ∷ xs) = x ∷ erase_last (y ∷ xs)

unfoldable pub type_byte : Line → ℕ → Line
unfolding is_erase is_newline
type_byte (finished rest) byte = finished rest
type_byte (typing line) byte =
    if is_erase byte
    then typing (erase_last line)
    else if is_newline byte
    then finished (line ++ (b'\n' ∷ []))
    else if ltb byte 0x20
    then typing line
    else if ltb (length line) line_max
    then typing (line ++ (byte ∷ []))
    else typing line

-- What the terminal is told for a byte.
unfoldable pub echo_byte : Line → ℕ → List ℕ
unfolding is_erase is_newline
echo_byte (finished rest) byte = []
echo_byte (typing line) byte =
    if is_erase byte
    then if ltb 0 (length line) then 0x08 ∷ 0x20 ∷ 0x08 ∷ [] else []
    else if is_newline byte
    then b'\n' ∷ []
    else if ltb byte 0x20
    then []
    else if ltb (length line) line_max
    then byte ∷ []
    else []

unfoldable pub is_finished : Line → Bool
is_finished (typing line) = false
is_finished (finished rest) = true

-- A read of at most `size` bytes: what it gets, and the line after it.
unfoldable pub read_line : Line → ℕ → Line × List ℕ
read_line (typing line) size = (typing line, [])
read_line (finished rest) size =
    (if leb (length rest) size then typing [] else finished (drop size rest), take size rest)
