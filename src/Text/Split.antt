-- ===== src/Text/Split.antt =====
-- Cutting a text at a separator byte, and white space, as in the package `strings`.
use mpcium.Base.{
  ℕ, zero, suc, ◌≡◌, refl, ◌≢◌, ap, Bool, false, ◌&&◌, ◌||◌, List, [], ◌∷◌, ◌++◌, ◌==◌, leb,
  if◌then◌else◌, arith, Str, All, length,
}

-- `strings.Cut(s, sep)`, its first result: the text before the separator, or all of the text.
unfoldable pub before : ℕ → Str → Str
before sep [] = []
before sep (c ∷ s) = let rest = before sep s in if c == sep then [] else c ∷ rest

pub before-append : (sep : ℕ) (a b : Str) → All (λ c. c ≢ sep) a → before sep (a ++ sep ∷ b) ≡ a
unfolding before
before-append sep [] b h = ground arith
before-append sep (c ∷ a) b h = ground (arith, before-append sep a b h.1)

pub before-All : (sep : ℕ) (a : Str) → All (λ c. c ≢ sep) a → before sep a ≡ a
unfolding before
before-All sep [] h = refl
before-All sep (c ∷ a) h = ground (arith, before-All sep a h.1)

-- A byte in front of the first part.
abbrev pub push_part : ℕ → List Str → List Str
push_part c [] = (c ∷ []) ∷ []
push_part c (p ∷ ps) = (c ∷ p) ∷ ps

-- `strings.SplitN(s, sep, n)` for n ≥ 1, by the number of further separators that are cut at.
unfoldable pub split_n : ℕ → ℕ → Str → List Str
split_n sep zero s = s ∷ []
split_n sep (suc n) [] = [] ∷ []
split_n sep (suc n) (c ∷ s) =
    let cut = [] ∷ split_n sep n s in
    let on = push_part c (split_n sep (suc n) s) in if c == sep then cut else on

pub split_n-append :
    (sep n : ℕ) (a b : Str)
    → All (λ c. c ≢ sep) a
    → split_n sep (suc n) (a ++ sep ∷ b) ≡ a ∷ split_n sep n b
unfolding split_n
split_n-append sep n [] b h = ground arith
split_n-append sep n (c ∷ a) b h = ground (arith, split_n-append sep n a b h.1)

-- White space, for an ASCII text.
abbrev pub is_space : ℕ → Bool
is_space c = (c == 32) || (leb 9 c && leb c 13)

unfoldable pub trim_left : Str → Str
trim_left [] = []
trim_left (c ∷ s) = let rest = trim_left s in if is_space c then rest else c ∷ s

unfoldable pub trim_right : Str → Str
trim_right [] = []
trim_right (c ∷ s) =
    let rest = trim_right s in if is_space c && leb (length rest) 0 then [] else c ∷ rest

-- `strings.TrimSpace`
unfoldable pub trim_space : Str → Str
unfolding trim_left trim_right
trim_space s = trim_right (trim_left s)

trim_left-All : (s : Str) → All (λ c. is_space c ≡ false) s → trim_left s ≡ s
unfolding trim_left
trim_left-All [] h = refl
trim_left-All (c ∷ s) h = rw h.0 refl

trim_right-All : (s : Str) → All (λ c. is_space c ≡ false) s → trim_right s ≡ s
unfolding trim_right
trim_right-All [] h = refl
trim_right-All (c ∷ s) h = rw h.0 (ap (λ t. c ∷ t) (trim_right-All s h.1))

pub trim_space-All : (s : Str) → All (λ c. is_space c ≡ false) s → trim_space s ≡ s
unfolding trim_space
trim_space-All s h = rw (trim_left-All s h) (trim_right-All s h)
