-- ===== src/Memory/Tokens.antt =====
-- `strtokr` of kernel/src/core/memory.c, on strings as the lists of their bytes: the pointer that the
-- caller keeps is what is left of the string, or NULL.
use pros.Common.{
  ℕ, zero, suc, ◌≤◌, ◌<◌, ◌≡◌, refl, ap, ◌∙◌, Bool, true, false, ◌||◌, Option, none, some, List, [],
  ◌∷◌, ◌++◌, length, drop, ◌==◌, if◌then◌else◌, All, replicate, arith, ◌⊎◌, inl, inr, sym, Avoids,
  Bool-cases, eq→==, ne→==,
}

unfoldable pub is_delim : ℕ → List ℕ → Bool
is_delim c [] = false
is_delim c (d ∷ delim) = (c == d) || is_delim c delim

-- The loop over leading delimiters.
unfoldable pub skip_delims : List ℕ → List ℕ → List ℕ
skip_delims delim [] = []
skip_delims delim (c ∷ next) = elim (is_delim c delim) [
  | true ↦ skip_delims delim next
  | false ↦ c ∷ next
]

-- The loop to the end of the token: the token, and what stands behind the delimiter.
unfoldable pub scan_token : List ℕ → List ℕ → List ℕ × List ℕ
scan_token delim [] = ([], [])
scan_token delim (c ∷ next) =
    let (token, rest) = scan_token delim next in
    if is_delim c delim then ([], next) else (c ∷ token, rest)

-- After the delimiters: the token, if there is one, and the pointer kept.
unfoldable pub token_at : List ℕ → List ℕ → Option (List ℕ) × Option (List ℕ)
token_at delim [] = (none, some [])
token_at delim (c ∷ next) =
    let (token, rest) = scan_token delim (c ∷ next) in (some token, some rest)

unfoldable pub token_from : List ℕ → Option (List ℕ) → Option (List ℕ) × Option (List ℕ)
token_from delim none = (none, none)
token_from delim (some []) = (none, none)
token_from delim (some (c ∷ next)) = token_at delim (skip_delims delim (c ∷ next))

-- On `str` and the pointer kept; the token, and the pointer to keep.
unfoldable pub strtokr :
    Option (List ℕ) → List ℕ → Option (List ℕ) → Option (List ℕ) × Option (List ℕ)
unfolding token_from
strtokr (some str) delim saveptr = token_from delim (some str)
strtokr none delim saveptr = token_from delim saveptr

-- The tokens that a loop of calls gets, on fuel.
unfoldable pub tokens : ℕ → List ℕ → Option (List ℕ) × Option (List ℕ) → List (List ℕ)
tokens zero delim call = []
tokens (suc fuel) delim (none, saveptr) = []
tokens (suc fuel) delim (some token, saveptr) =
    token ∷ tokens fuel delim (strtokr none delim saveptr)

-- `d` is one of the delimiters.
abbrev pub IsMember : ℕ → List ℕ → Type 0
IsMember d [] = ⊥
IsMember d (x ∷ delim) = (d ≡ x) ⊎ IsMember d delim

member_lem : (d : ℕ) (delim : List ℕ) → IsMember d delim → is_delim d delim ≡ true
unfolding is_delim
member_lem d [] h = absurd h
member_lem d (x ∷ delim) (inl e) = let t : (d == x) ≡ true = eq→== d x e in rw t refl
member_lem d (x ∷ delim) (inr h) = elim (Bool-cases (d == x)) [
  | inl t ↦ rw t refl
  | inr t ↦ rw t (member_lem d delim h)
]

avoids_lem : (c : ℕ) (delim : List ℕ) → Avoids c delim → is_delim c delim ≡ false
unfolding is_delim
avoids_lem c [] h = refl
avoids_lem c (x ∷ delim) h =
    let t : (c == x) ≡ false = ne→== c x (λ e. h.0 (sym e)) in rw t (avoids_lem c delim h.1)

-- A name is a string that is not empty, with no delimiter in it.
abbrev pub IsName : List ℕ → List ℕ → Type 0
IsName delim [] = ⊥
IsName delim (c ∷ name) = All (λ x. Avoids x delim) (c ∷ name)

-- The names, each behind a delimiter `d`, and so many more as its number says; and `tail` delimiters.
abbrev pub join : ℕ → ℕ → List (ℕ × List ℕ) → List ℕ
join d tail [] = replicate tail d
join d tail ((extra, name) ∷ names) = replicate (suc extra) d ++ (name ++ join d tail names)

abbrev pub names_of : List (ℕ × List ℕ) → List (List ℕ)
names_of [] = []
names_of ((extra, name) ∷ names) = name ∷ names_of names

abbrev pub AreNames : List ℕ → List (ℕ × List ℕ) → Type 0
AreNames delim [] = Unit
AreNames delim ((extra, name) ∷ names) = IsName delim name × AreNames delim names

module _ (delim : List ℕ) (d : ℕ) (here : is_delim d delim ≡ true) where
  skip_replicate :
      (n c : ℕ) (xs : List ℕ)
      → is_delim c delim ≡ false
      → skip_delims delim (replicate n d ++ (c ∷ xs)) ≡ c ∷ xs
  unfolding skip_delims
  skip_replicate zero c xs h = rw (h, skip_delims) refl
  skip_replicate (suc n) c xs h = rw (here, skip_delims) (skip_replicate n c xs h)

  skip_all : (n : ℕ) → skip_delims delim (replicate n d) ≡ []
  unfolding skip_delims
  skip_all zero = refl
  skip_all (suc n) = rw (here, skip_delims) (skip_all n)

  nothing : (n : ℕ) → (token_from delim (some (replicate n d))).0 ≡ none
  unfolding token_from token_at
  nothing zero = refl
  nothing (suc n) = ap (λ xs. (token_at delim xs).0) (skip_all (suc n))

  scan_name :
      (name : List ℕ) (tail : ℕ) (names : List (ℕ × List ℕ))
      → All (λ x. Avoids x delim) name
      → scan_token delim (name ++ join d tail names) ≡ (name, drop 1 (join d tail names))
  unfolding scan_token
  scan_name [] zero [] h = refl
  scan_name [] (suc tail) [] h = rw here refl
  scan_name [] tail ((extra, name) ∷ names) h = rw here refl
  scan_name (c ∷ name) tail names h =
      ap
        (λ (t : List ℕ × List ℕ).
          if is_delim c delim then ([], name ++ join d tail names) else (c ∷ t.0, t.1))
        (scan_name name tail names h.1)
      ∙ ap
          (λ b.
            if b then ([], name ++ join d tail names) else (c ∷ name, drop 1 (join d tail names)))
          (avoids_lem c delim h.0)

  found :
      (n c : ℕ) (name : List ℕ) (tail : ℕ) (names : List (ℕ × List ℕ))
      → IsName delim (c ∷ name)
      → token_from delim (some (replicate n d ++ ((c ∷ name) ++ join d tail names)))
        ≡ (some (c ∷ name), some (drop 1 (join d tail names)))
  unfolding token_from token_at
  found n c name tail names h =
      head n
      ∙ ap (token_at delim)
          (skip_replicate n c (name ++ join d tail names) (avoids_lem c delim h.0))
      ∙ ap (λ (t : List ℕ × List ℕ). (some t.0, some t.1)) (scan_name (c ∷ name) tail names h)
    where
      head :
          (n : ℕ)
          → token_from delim (some (replicate n d ++ ((c ∷ name) ++ join d tail names)))
            ≡ token_at delim
                (skip_delims delim (replicate n d ++ ((c ∷ name) ++ join d tail names)))
      head zero = refl
      head (suc n) = refl

  tokens-none :
      (fuel : ℕ) (call : Option (List ℕ) × Option (List ℕ))
      → call.0 ≡ none
      → tokens fuel delim call ≡ []
  unfolding tokens
  tokens-none zero call h = refl
  tokens-none (suc fuel) (none, saveptr) h = refl
  tokens-none (suc fuel) (some t, saveptr) h = cc

  tokens_rest :
      (fuel tail : ℕ) (names : List (ℕ × List ℕ))
      → AreNames delim names
      → length names ≤ fuel
      → tokens fuel delim (strtokr none delim (some (drop 1 (join d tail names)))) ≡ names_of names
  unfolding tokens strtokr
  tokens_rest fuel zero [] h enough = tokens-none fuel (token_from delim (some [])) (nothing 0)
  tokens_rest fuel (suc tail) [] h enough =
      tokens-none fuel (token_from delim (some (replicate tail d))) (nothing tail)
  tokens_rest fuel tail ((extra, []) ∷ names) h enough = absurd h.0
  tokens_rest zero tail ((extra, c ∷ name) ∷ names) h enough = absurd (omega arith)
  tokens_rest (suc fuel) tail ((extra, c ∷ name) ∷ names) h enough =
      ap (tokens (suc fuel) delim) (found extra c name tail names h.0)
      ∙ ap (λ t. (c ∷ name) ∷ t) (tokens_rest fuel tail names h.1 (omega arith))

-- Names, which hold none of the delimiters, with one of these between them, at least one before each but the first and any number in front
-- and behind, are what calls of `strtokr` give, the first on the string and the others on NULL.
pub tokens-join :
    (delim : List ℕ) (d front tail fuel : ℕ) (name : List ℕ) (names : List (ℕ × List ℕ))
    → IsMember d delim
    → IsName delim name
    → AreNames delim names
    → length names < fuel
    → tokens fuel delim
        (strtokr (some (replicate front d ++ (name ++ join d tail names))) delim none)
      ≡ name ∷ names_of names
unfolding tokens strtokr
tokens-join delim d front tail fuel [] names here h hs enough = absurd h
tokens-join delim d front tail zero (c ∷ name) names here h hs enough = absurd (omega arith)
tokens-join delim d front tail (suc fuel) (c ∷ name) names here h hs enough =
    ap (tokens (suc fuel) delim) (found delim d (member_lem d delim here) front c name tail names h)
    ∙ ap (λ t. (c ∷ name) ∷ t)
        (tokens_rest delim d (member_lem d delim here) fuel tail names hs (omega arith))
