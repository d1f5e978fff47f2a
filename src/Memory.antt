-- ===== src/Memory.antt =====
-- kernel/src/core/memory.c: ranges of bytes and strings. The memory is a function from addresses to
-- bytes. The loops over `n` bytes recurse on what is left, those up to a NUL run on fuel, and `none`
-- is fuel that is out.
pub mod Move
pub mod Strings
pub mod Search
pub mod Tokens
pub mod Fill
mod Tests
use pros.Common.{
  ℕ, zero, suc, ◌+◌, ◌-◌, ◌%◌, Bool, true, false, not, ◌&&◌, ◌||◌, Option, none, some, update,
  add64, ltb, ◌==◌, if◌then◌else◌,
}

-- The results of comparisons, of type `int`.
pub data ℤ : Type 0 where
  pos : ℕ → ℤ
  negsuc : ℕ → ℤ

-- The difference of two bytes.
unfoldable pub byte_diff : ℕ → ℕ → ℤ
byte_diff a b = if ltb a b then ℤ.negsuc (b - a - 1) else ℤ.pos (a - b)

-- The loop that copies upwards, from index `i` on, with `left` bytes to go.
pub copy_up : ℕ → ℕ → ℕ → ℕ → (ℕ → ℕ) → ℕ → ℕ
copy_up zero i dest src m = m
copy_up (suc left) i dest src m =
    copy_up left (i + 1) dest src (update m (add64 dest i) (m (add64 src i)))

-- The loop that copies downwards, from the index below its first argument.
pub copy_down : ℕ → ℕ → ℕ → (ℕ → ℕ) → ℕ → ℕ
copy_down zero dest src m = m
copy_down (suc i) dest src m = copy_down i dest src (update m (add64 dest i) (m (add64 src i)))

unfoldable pub memcpy : ℕ → ℕ → ℕ → (ℕ → ℕ) → ℕ → ℕ
unfolding copy_up
memcpy dest src n m = copy_up n 0 dest src m

pub set_up : ℕ → ℕ → ℕ → ℕ → (ℕ → ℕ) → ℕ → ℕ
set_up zero i s c m = m
set_up (suc left) i s c m = set_up left (i + 1) s c (update m (add64 s i) (c % 256))

unfoldable pub memset : ℕ → ℕ → ℕ → (ℕ → ℕ) → ℕ → ℕ
unfolding set_up
memset s c n m = set_up n 0 s c m

unfoldable pub memmove : ℕ → ℕ → ℕ → (ℕ → ℕ) → ℕ → ℕ
unfolding copy_up copy_down
memmove dest src n m =
    if ltb dest src
    then copy_up n 0 dest src m
    else if ltb src dest
    then copy_down n dest src m
    else m

unfoldable pub memcmp : ℕ → ℕ → ℕ → (ℕ → ℕ) → ℤ
memcmp s1 s2 zero m = ℤ.pos 0
memcmp s1 s2 (suc n) m =
    if m s1 == m s2
    then memcmp (add64 s1 1) (add64 s2 1) n m
    else if ltb (m s1) (m s2)
    then ℤ.negsuc 0
    else ℤ.pos 1

strlen_loop : ℕ → ℕ → (ℕ → ℕ) → ℕ → Option ℕ
strlen_loop zero s m len = none
strlen_loop (suc fuel) s m len =
    let rest = strlen_loop fuel s m (add64 len 1) in if m (add64 s len) == 0 then some len else rest

unfoldable pub strlen : ℕ → ℕ → (ℕ → ℕ) → Option ℕ
unfolding strlen_loop
strlen fuel s m = strlen_loop fuel s m 0

unfoldable pub strcmp : ℕ → ℕ → ℕ → (ℕ → ℕ) → Option ℤ
unfolding byte_diff
strcmp zero s1 s2 m = none
strcmp (suc fuel) s1 s2 m =
    let rest = strcmp fuel (add64 s1 1) (add64 s2 1) m in
    if not (m s1 == 0) && (m s1 == m s2) then rest else some (byte_diff (m s1) (m s2))

unfoldable pub strncmp : ℕ → ℕ → ℕ → (ℕ → ℕ) → ℤ
unfolding byte_diff
strncmp s1 s2 zero m = ℤ.pos 0
strncmp s1 s2 (suc n) m =
    let rest = strncmp (add64 s1 1) (add64 s2 1) n m in
    if not (m s1 == 0) && (m s1 == m s2) then rest else byte_diff (m s1) (m s2)

-- The inner loop of `strstr`: does the needle begin here?
pub needle_at : ℕ → ℕ → ℕ → (ℕ → ℕ) → Option Bool
needle_at zero h n m = none
needle_at (suc fuel) h n m =
    let rest = needle_at fuel (add64 h 1) (add64 n 1) m in
    if not (m h == 0) && not (m n == 0) && (m h == m n) then rest else some (m n == 0)

-- What the loop of `strstr` does with that at `haystack`; `rest` is what it comes to behind it.
unfoldable pub strstr_step : Option Bool → ℕ → Option ℕ → Option ℕ
strstr_step none haystack rest = none
strstr_step (some found) haystack rest = if found then some haystack else rest

pub strstr_loop : ℕ → ℕ → ℕ → (ℕ → ℕ) → Option ℕ
strstr_loop zero haystack needle m = none
strstr_loop (suc fuel) haystack needle m =
    let rest = strstr_loop fuel (add64 haystack 1) needle m in
    if m haystack == 0
    then some 0
    else strstr_step (needle_at (suc fuel) haystack needle m) haystack rest

-- The address of the first occurrence, 0 for NULL.
unfoldable pub strstr : ℕ → ℕ → ℕ → (ℕ → ℕ) → Option ℕ
unfolding strstr_loop strstr_step needle_at
strstr fuel haystack needle m =
    if m needle == 0 then some haystack else strstr_loop fuel haystack needle m
