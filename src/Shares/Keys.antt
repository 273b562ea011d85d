-- ===== src/Shares/Keys.antt =====
-- The keys that shares are put under.
use mpcium.Base.{
  ℕ, zero, suc, ◌+◌, ◌<◌, ◌≡◌, ◌≢◌, refl, sym, ap, ◌∙◌, false, Bool-cases, inl, inr, if◌then◌else◌,
  ltb, [], ◌∷◌, ◌++◌, Str, codes, str_eq, str_eq_iff, length, length-append, All, All-mono,
  cons-injective, arith,
}
use mathlib.Core.Path.{subst}
use mpcium.Session.Topics.{Curve, ecdsa, eddsa}
use mpcium.Text.Decimal.{print_decimal, print_decimal-IsDigit, print_decimal-injective, IsDigit}
use mpcium.Shares.{share_key, wallet_id_with_version}

heads : (c d : ℕ) (a b : Str) → c ∷ a ≡ d ∷ b → (c ≡ d) × (a ≡ b)
heads c d a b e = (cc, cc)

absent : (sep : ℕ) (b y : Str) → All (λ c. c ≢ sep) (b ++ sep ∷ y) → ⊥
absent sep [] y h = h.0 refl
absent sep (c ∷ b) y h = absent sep b y h.1

-- A text is cut at its last separator in one way.
cut_last :
    (sep : ℕ) (a x b y : Str)
    → All (λ c. c ≢ sep) x
    → All (λ c. c ≢ sep) y
    → a ++ sep ∷ x ≡ b ++ sep ∷ y
    → (a ≡ b) × (x ≡ y)
cut_last sep [] x [] y h k e = (refl, cons-injective sep x y e)
cut_last sep [] x (c ∷ b) y h k e =
    elim (absent sep b y (subst (All (λ c. c ≢ sep)) (heads sep c x (b ++ sep ∷ y) e).1 h)) [ ]
cut_last sep (c ∷ a) x [] y h k e =
    elim (absent sep a x
      (subst (All (λ c. c ≢ sep)) (sym (heads c sep (a ++ sep ∷ x) y e).1) k)) [ ]
cut_last sep (c ∷ a) x (d ∷ b) y h k e =
    let (first, rest) = heads c d (a ++ sep ∷ x) (b ++ sep ∷ y) e in
    let (front, back) = cut_last sep a x b y h k rest in
    (ap (λ n. n ∷ a) first ∙ ap (λ t. d ∷ t) front, back)

digits_plain : (v : ℕ) → All (λ c. c ≢ b'_') (b'v' ∷ print_decimal v)
digits_plain v = (ground arith, All-mono IsDigit _ (λ c d. omega arith) _ (print_decimal-IsDigit v))

-- The key of a wallet's share at a version, from the wallet's key.
unfoldable pub versioned : Str → ℕ → Str
versioned key version = if ltb 0 version then key ++ (codes "_v" ++ print_decimal version) else key

share_key-append : (c : Curve) (a b : Str) → share_key c (a ++ b) ≡ share_key c a ++ b
unfolding share_key
share_key-append ecdsa a b = refl
share_key-append eddsa a b = refl

pub share_key-wallet_id_with_version :
    (c : Curve) (wallet_id : Str) (version : ℕ)
    → share_key c (wallet_id_with_version wallet_id version)
      ≡ versioned (share_key c wallet_id) version
unfolding share_key wallet_id_with_version versioned
share_key-wallet_id_with_version c wallet_id version = elim (Bool-cases (ltb 0 version)) [
  | inl e ↦ rw e (share_key-append c wallet_id _)
  | inr e ↦ rw e refl
]

positive : (k : Str) (v : ℕ) → 0 < v → versioned k v ≡ k ++ b'_' ∷ (b'v' ∷ print_decimal v)
unfolding versioned
positive k v h = ground arith

pub versioned-injective :
    (k l : Str) (v u : ℕ) → 0 < v → 0 < u → versioned k v ≡ versioned l u → (k ≡ l) × (v ≡ u)
versioned-injective k l v u hv hu e =
    let (keys, numbers) =
      cut_last b'_' k (b'v' ∷ print_decimal v) l (b'v' ∷ print_decimal u) (digits_plain v)
        (digits_plain u) (sym (positive k v hv) ∙ e ∙ positive l u hu) in
    (keys, print_decimal-injective v u (cons-injective b'v' _ _ numbers))

differ : (a b : Str) → a ≢ b → str_eq a b ≡ false
differ a b h = ground (arith, str_eq_iff a b)

longer : (k x : Str) (c : ℕ) → length (k ++ c ∷ x) ≢ length k
longer k x c e = omega (arith, length-append k (c ∷ x))

-- The next version has another key.
pub versioned_next : (k : Str) (v : ℕ) → str_eq (versioned k (v + 1)) (versioned k v) ≡ false
unfolding versioned
versioned_next k zero =
    differ (k ++ b'_' ∷ (b'v' ∷ print_decimal 1)) k (λ e. longer k _ _ (ap length e))
versioned_next k (suc v) = differ _ _ (λ e.
    let h = (versioned-injective k k (suc v + 1) (suc v) (omega arith) (omega arith) e).1 in
    omega arith)
