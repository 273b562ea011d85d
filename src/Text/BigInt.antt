-- ===== src/Text/BigInt.antt =====
-- `big.Int.SetBytes` and `big.Int.Bytes`, the big-endian form without leading zero bytes. The code
-- uses them in pkg/mpc/party_id.go and pkg/encoding/ecdsa.go.
use mpcium.Base.{
  false, ℕ, zero, suc, ◌+◌, ◌*◌, ◌/◌, ◌%◌, ◌≤◌, ◌<◌, ◌≡◌, refl, ◌≢◌, sym, ap, ◌∙◌, [], ◌∷◌, ◌++◌,
  ◌==◌, if◌then◌else◌, arith, Str, All, Bool-cases, inl, inr,
}
use mathlib.Core.List.{append_assoc, append-nil}

-- The number that `bs` extends, byte by byte.
unfoldable pub set_bytes_from : ℕ → Str → ℕ
set_bytes_from acc [] = acc
set_bytes_from acc (b ∷ bs) = set_bytes_from (acc * 256 + b) bs

unfoldable pub set_bytes : Str → ℕ
unfolding set_bytes_from
set_bytes = set_bytes_from 0

-- With fuel for the number of bytes; the number itself is enough.
unfoldable pub bytes_fuel : ℕ → ℕ → Str
bytes_fuel zero n = []
bytes_fuel (suc f) n =
    let rest = bytes_fuel f (n / 256) ++ (n % 256) ∷ [] in if n == 0 then [] else rest

unfoldable pub bytes : ℕ → Str
unfolding bytes_fuel
bytes n = bytes_fuel n n

bytes_fuel_enough : (f g n : ℕ) → n ≤ f → n ≤ g → bytes_fuel f n ≡ bytes_fuel g n
unfolding bytes_fuel
bytes_fuel_enough zero zero n p q = refl
bytes_fuel_enough zero (suc g) n p q = ground arith
bytes_fuel_enough (suc f) zero n p q = ground arith
bytes_fuel_enough (suc f) (suc g) n p q = elim (Bool-cases (n == 0)) [
  | inl e ↦ rw e
  | inr e ↦ rw (e, bytes_fuel_enough f g (n / 256) (ground arith) (ground arith))
]

bytes_step : (m : ℕ) → m ≢ 0 → bytes m ≡ bytes (m / 256) ++ (m % 256) ∷ []
unfolding bytes
bytes_step zero nz = absurd (nz refl)
bytes_step (suc k) nz =
    let more : (suc k == 0) ≡ false = ground arith in
    rw more (
      ap (λ s. s ++ (suc k % 256) ∷ [])
        (bytes_fuel_enough k (suc k / 256) (suc k / 256) (omega arith) (omega arith)))

bytes_snoc : (n b : ℕ) → b < 256 → n * 256 + b ≢ 0 → bytes (n * 256 + b) ≡ bytes n ++ b ∷ []
bytes_snoc n b lt nz =
    let q : (n * 256 + b) / 256 ≡ n = omega arith in
    let r : (n * 256 + b) % 256 ≡ b = omega arith in bytes_step (n * 256 + b) nz ∙ rw (q, r) refl

bytes-set_bytes_from :
    (acc : ℕ) (bs : Str)
    → acc ≢ 0
    → All (λ b. b < 256) bs
    → bytes (set_bytes_from acc bs) ≡ bytes acc ++ bs
unfolding set_bytes_from
bytes-set_bytes_from acc [] nz h = sym (append-nil (bytes acc))
bytes-set_bytes_from acc (b ∷ bs) nz h =
    bytes-set_bytes_from (acc * 256 + b) bs (λ e. nz (omega arith)) h.1
    ∙ rw (bytes_snoc acc b h.0 (λ e. nz (omega arith)), append_assoc) refl

bytes_byte : (b : ℕ) → b < 256 → b ≢ 0 → bytes b ≡ b ∷ []
unfolding bytes
bytes_byte b lt nz =
    let q : b / 256 ≡ 0 = omega arith in
    let r : b % 256 ≡ b = omega arith in bytes_step b nz ∙ rw (q, r) refl

-- The first byte is there and is not zero.
abbrev pub StartsNonzero : Str → Type 0
StartsNonzero [] = ⊥
StartsNonzero (b ∷ bs) = b ≢ 0

-- A byte string that does not start with a zero byte comes back from the number that it spells.
pub bytes-set_bytes :
    (bs : Str) → StartsNonzero bs → All (λ b. b < 256) bs → bytes (set_bytes bs) ≡ bs
unfolding set_bytes set_bytes_from
bytes-set_bytes [] s h = elim s [ ]
bytes-set_bytes (b ∷ bs) s h =
    let e : 0 * 256 + b ≡ b = omega arith in
    ap (λ a. bytes (set_bytes_from a bs)) e
    ∙ bytes-set_bytes_from b bs s h.1
    ∙ ap (λ t. t ++ bs) (bytes_byte b h.0 s)

set_bytes_from-snoc :
    (acc : ℕ) (bs : Str) (b : ℕ)
    → set_bytes_from acc (bs ++ b ∷ []) ≡ set_bytes_from acc bs * 256 + b
unfolding set_bytes_from
set_bytes_from-snoc acc [] b = refl
set_bytes_from-snoc acc (c ∷ bs) b = set_bytes_from-snoc (acc * 256 + c) bs b

set_bytes-bytes_fuel : (f n : ℕ) → n ≤ f → set_bytes_from 0 (bytes_fuel f n) ≡ n
unfolding set_bytes_from bytes_fuel
set_bytes-bytes_fuel zero n h = omega arith
set_bytes-bytes_fuel (suc f) n h = elim (Bool-cases (n == 0)) [
  | inl e ↦ rw e (ground arith)
  | inr e ↦
      rw
        (
          e,
          set_bytes_from-snoc 0 (bytes_fuel f (n / 256)) (n % 256),
          set_bytes-bytes_fuel f (n / 256) (ground arith),
        )
        (omega arith)
]

-- The bytes of a number spell it.
pub set_bytes-bytes : (n : ℕ) → set_bytes (bytes n) ≡ n
unfolding set_bytes bytes
set_bytes-bytes n = set_bytes-bytes_fuel n n (omega arith)
