-- ===== src/Exchange/Info.antt =====
-- The info of the key derivation, deriveConsistentInfo of pkg/mpc/key_exchange_session.go.
use mpcium.Base.{◌≡◌, refl, true, false, inl, inr, [], ◌∷◌, Str, arith, Bool-cases}
use mpcium.Exchange.{str_lt, derive_consistent_info}

-- The order of strings is antisymmetric and total.
str_lt_flip : (a b : Str) → str_lt a b ≡ true → str_lt b a ≡ false
unfolding str_lt
str_lt_flip [] [] h = cc
str_lt_flip [] (y ∷ b) h = refl
str_lt_flip (x ∷ a) [] h = cc
str_lt_flip (x ∷ a) (y ∷ b) h = ground (arith, str_lt_flip a b)

str_lt_total : (a b : Str) → str_lt a b ≡ false → str_lt b a ≡ false → a ≡ b
unfolding str_lt
str_lt_total [] [] h k = refl
str_lt_total [] (y ∷ b) h k = cc
str_lt_total (x ∷ a) [] h k = cc
str_lt_total (x ∷ a) (y ∷ b) h k = ground (arith, str_lt_total a b)

-- Both nodes derive with the same info.
pub derive_consistent_info_comm :
    (a b : Str) → derive_consistent_info a b ≡ derive_consistent_info b a
unfolding derive_consistent_info
derive_consistent_info_comm a b = elim (Bool-cases (str_lt a b)) [
  | inl h ↦ rw (h, str_lt_flip a b h) refl
  | inr h ↦ elim (Bool-cases (str_lt b a)) [
    | inl k ↦ rw (h, k) refl
    | inr k ↦ rw (h, k, str_lt_total a b h k) refl
  ]
]
