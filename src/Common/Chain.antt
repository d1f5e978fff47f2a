-- ===== src/Common/Chain.antt =====
-- Intrusive linked lists: a `next` field at each address, read as a function, and the list of the
-- nodes that it leads through.
use Prim.Native.Nat.{ℕ, zero, suc}
use mathlib.Core.Path.{◌≡◌, refl, sym}
use mathlib.Core.Logic.{◌≢◌}
use mathlib.Core.List.{List, [], ◌∷◌, ◌++◌}
use mathlib.Core.Bool.{Bool, true, false, ◌||◌}
use native.Mathlib.Omega.{arith}
use pros.Common.Bools.{◌==◌, if◌then◌else◌, ne→==}
use pros.Common.Lists.{All, drop}

-- The store after a write of `v` at `p`.
abbrev pub update {ℓ} : {A : Type ℓ} → (ℕ → A) → ℕ → A → ℕ → A
update f p v q = if q == p then v else f q

pub update_ne {ℓ} : {A : Type ℓ} (f : ℕ → A) (p : ℕ) (v : A) (q : ℕ) → q ≢ p → update f p v q ≡ f q
update_ne f p v q h = rw (ne→== q p h)

pub update_eq {ℓ} : {A : Type ℓ} (f : ℕ → A) (p : ℕ) (v : A) → update f p v p ≡ v
update_eq f p v = let e : (p == p) ≡ true = ground arith in rw e

-- From `p` the `next` fields lead through `xs` to `stop`, which is none of them.
abbrev pub Seg : (ℕ → ℕ) → ℕ → ℕ → List ℕ → Type 0
Seg next stop p [] = p ≡ stop
Seg next stop p (x ∷ xs) = (p ≡ x) × (x ≢ stop) × Seg next stop (next x) xs

abbrev pub Avoids : ℕ → List ℕ → Type 0
Avoids a xs = All (λ x. x ≢ a) xs

abbrev pub Distinct : List ℕ → Type 0
Distinct [] = Unit
Distinct (x ∷ xs) = Avoids x xs × Distinct xs

-- A write at an address outside a segment leaves the segment as it was.
pub Seg-update :
    (next : ℕ → ℕ) (stop p a v : ℕ) (xs : List ℕ)
    → Avoids a xs
    → Seg next stop p xs
    → Seg (update next a v) stop p xs
Seg-update next stop p a v [] out s = s
Seg-update next stop p a v (x ∷ xs) out s =
    (s.0, s.1, rw (update_ne next a v x out.0) (Seg-update next stop (next x) a v xs out.1 s.2))

pub All-drop {ℓ κ} :
    {A : Type ℓ} (P : A → Type κ) (n : ℕ) (xs : List A) → All P xs → All P (drop n xs)
All-drop P zero xs h = h
All-drop P (suc n) [] h = tt
All-drop P (suc n) (x ∷ xs) h = All-drop P n xs h.1

pub All-append {ℓ κ} :
    {A : Type ℓ} (P : A → Type κ) (xs ys : List A) → All P xs → All P ys → All P (xs ++ ys)
All-append P [] ys h k = k
All-append P (x ∷ xs) ys h k = (h.0, All-append P xs ys h.1 k)

pub Distinct-drop : (n : ℕ) (xs : List ℕ) → Distinct xs → Distinct (drop n xs)
Distinct-drop zero xs h = h
Distinct-drop (suc n) [] h = tt
Distinct-drop (suc n) (x ∷ xs) h = Distinct-drop n xs h.1

pub Seg-Avoids : (next : ℕ → ℕ) (stop p : ℕ) (xs : List ℕ) → Seg next stop p xs → Avoids stop xs
Seg-Avoids next stop p [] s = tt
Seg-Avoids next stop p (x ∷ xs) s = (s.1, Seg-Avoids next stop (next x) xs s.2)

-- A circular list, cut at `d` and entered there: what comes before `d` goes to the end.
pub Seg-rotate :
    (next : ℕ → ℕ) (c d p : ℕ) (xs ys : List ℕ)
    → Seg next c p (xs ++ (d ∷ ys))
    → Avoids d xs
    → Seg next d p xs × (d ≢ c) × Seg next c (next d) ys
Seg-rotate next c d p [] ys s out = (s.0, s.1, s.2)
Seg-rotate next c d p (x ∷ xs) ys s out =
    let (front, ne, back) = Seg-rotate next c d (next x) xs ys s.2 out.1 in
    ((s.0, out.0, front), ne, back)

pub Seg-join :
    (next : ℕ → ℕ) (c d p : ℕ) (ys xs : List ℕ)
    → Seg next c p ys
    → Avoids d ys
    → c ≢ d
    → Seg next d (next c) xs
    → Seg next d p (ys ++ (c ∷ xs))
Seg-join next c d p [] xs s out ne t = (s, ne, t)
Seg-join next c d p (y ∷ ys) xs s out ne t =
    (s.0, out.0, Seg-join next c d (next y) ys xs s.2 out.1 ne t)

pub Avoids-append : (a : ℕ) (xs ys : List ℕ) → Avoids a (xs ++ ys) → Avoids a xs × Avoids a ys
Avoids-append a [] ys h = (tt, h)
Avoids-append a (x ∷ xs) ys h =
    let (front, back) = Avoids-append a xs ys h.1 in ((h.0, front), back)

-- The members on both sides of one member of a distinct list differ from it.
pub Distinct-around :
    (d : ℕ) (xs ys : List ℕ) → Distinct (xs ++ (d ∷ ys)) → Avoids d xs × Avoids d ys
Distinct-around d [] ys h = (tt, h.0)
Distinct-around d (x ∷ xs) ys h =
    let (front, back) = Distinct-around d xs ys h.1 in
    let (_, here) = Avoids-append x xs (d ∷ ys) h.0 in ((λ e. here.0 (sym e), front), back)

-- No member of the one is a member of the other.
abbrev pub Apart : List ℕ → List ℕ → Type 0
Apart xs ys = All (λ x. Avoids x ys) xs

pub Apart-cons : (y : ℕ) (xs ys : List ℕ) → Avoids y xs → Apart xs ys → Apart xs (y ∷ ys)
Apart-cons y [] ys out h = tt
Apart-cons y (x ∷ xs) ys out h = ((λ e. out.0 (sym e), h.0), Apart-cons y xs ys out.1 h.1)

pub Apart-nil : (xs : List ℕ) → Apart xs []
Apart-nil [] = tt
Apart-nil (x ∷ xs) = (tt, Apart-nil xs)

pub Apart-sym : (xs ys : List ℕ) → Apart xs ys → Apart ys xs
Apart-sym [] ys h = Apart-nil ys
Apart-sym (x ∷ xs) ys h = Apart-cons x ys xs h.0 (Apart-sym xs ys h.1)

pub Distinct-split :
    (xs ys : List ℕ) → Distinct (xs ++ ys) → Distinct xs × Distinct ys × Apart xs ys
Distinct-split [] ys h = (tt, h, tt)
Distinct-split (x ∷ xs) ys h =
    let (dx, dy, apart) = Distinct-split xs ys h.1 in
    let (front, back) = Avoids-append x xs ys h.0 in ((front, dx), dy, (back, apart))

pub Distinct-join : (xs ys : List ℕ) → Distinct xs → Distinct ys → Apart xs ys → Distinct (xs ++ ys)
Distinct-join [] ys dx dy apart = dy
Distinct-join (x ∷ xs) ys dx dy apart =
    (All-append (λ y. y ≢ x) xs ys dx.0 apart.0, Distinct-join xs ys dx.1 dy apart.1)

abbrev pub has : ℕ → List ℕ → Bool
has a [] = false
has a (x ∷ xs) = (a == x) || has a xs

pub Avoids-has : (a : ℕ) (xs : List ℕ) → Avoids a xs → has a xs ≡ false
Avoids-has a [] h = refl
Avoids-has a (x ∷ xs) h = rw (ne→== a x (λ e. h.0 (sym e)), Avoids-has a xs h.1)

-- A segment depends on the links only pointwise.
pub Seg-ext :
    (f g : ℕ → ℕ) (stop p : ℕ) (xs : List ℕ)
    → ((a : ℕ) → f a ≡ g a)
    → Seg f stop p xs
    → Seg g stop p xs
Seg-ext f g stop p [] same s = s
Seg-ext f g stop p (x ∷ xs) same s = (s.0, s.1, rw (← same x) (Seg-ext f g stop (f x) xs same s.2))
