-- ===== src/Memory/Tests.antt =====
-- kernel/src/core/memory.c at concrete inputs: "abc" at 10, "bc" at 20.
use pros.Common.{inl, inr, ℕ, ◌-◌, ◌≡◌, refl, none, some, [], ◌∷◌, arith, get_or, take}
use pros.Memory.{ℤ, memmove, memset, memcmp, strlen, strncmp, strstr}
use pros.Memory.Move.{copied, memmove-copied}
use pros.Memory.Strings.{IsString, Compares, strncmp-Compares}
use pros.Memory.Tokens.{strtokr, tokens, tokens-join}
use pros.Memory.Search.{find, found_at, strstr-find}

abbrev memory : ℕ → ℕ
memory a = get_or (97 ∷ 98 ∷ 99 ∷ 0 ∷ 0 ∷ 0 ∷ 0 ∷ 0 ∷ 0 ∷ 0 ∷ 98 ∷ 99 ∷ 0 ∷ []) (a - 10) 0

abc-IsString : IsString memory 10 (97 ∷ 98 ∷ 99 ∷ [])
abc-IsString = (
  refl,
  omega arith,
  omega arith,
  (refl, omega arith, omega arith, (refl, omega arith, omega arith, (refl, omega arith))),
)

bc-IsString : IsString memory 20 (98 ∷ 99 ∷ [])
bc-IsString =
    (refl, omega arith, omega arith, (refl, omega arith, omega arith, (refl, omega arith)))

moved : memmove 11 10 3 memory 13 ≡ 99
unfolding memmove
moved = refl

filled : memset 10 0x141 2 memory 11 ≡ 0x41
unfolding memset
filled = refl

compared : memcmp 10 20 3 memory ≡ ℤ.negsuc 0
unfolding memcmp
compared = refl

memmove-copied_example : memmove 11 10 3 memory 13 ≡ copied 11 10 3 memory 13
memmove-copied_example = memmove-copied 11 10 3 memory 13 (omega arith) (omega arith)

measured : strlen 5 10 memory ≡ some 3
unfolding strlen
measured = refl

strncmp-Compares_example :
    Compares (take 2 (97 ∷ 98 ∷ 99 ∷ [])) (take 2 (98 ∷ 99 ∷ [])) (strncmp 10 20 2 memory)
strncmp-Compares_example =
    strncmp-Compares 2 10 20 memory (97 ∷ 98 ∷ 99 ∷ []) (98 ∷ 99 ∷ []) abc-IsString bc-IsString

strstr-find_example :
    strstr 5 10 20 memory ≡ some (found_at 10 (find (98 ∷ 99 ∷ []) (97 ∷ 98 ∷ 99 ∷ [])))
strstr-find_example =
    strstr-find 5 10 20 memory (98 ∷ 99 ∷ []) (97 ∷ 98 ∷ 99 ∷ []) bc-IsString abc-IsString
      (omega arith)

-- "::a:b:", at slashes and colons.
tokens-join_example :
    tokens 2
      (0x2f ∷ 0x3a ∷ [])
      (strtokr (some (0x3a ∷ 0x3a ∷ 0x61 ∷ 0x3a ∷ 0x62 ∷ 0x3a ∷ [])) (0x2f ∷ 0x3a ∷ []) none)
    ≡ (0x61 ∷ []) ∷ (0x62 ∷ []) ∷ []
tokens-join_example =
    tokens-join (0x2f ∷ 0x3a ∷ []) 0x3a 2 1 2 (0x61 ∷ []) ((0, 0x62 ∷ []) ∷ []) (inr (inl refl))
      (omega arith) (omega arith) (omega arith)
