-- ===== src/Text/Padding.antt =====
-- Bytes of a number padded with zeros to a size, as pkg/encoding and wallet-api/pkg/transaction do.
use mpcium.Base.{
  ℕ, zero, suc, ◌-◌, ◌≤◌, ◌≡◌, refl, [], ◌∷◌, ◌++◌, Str, arith, length, length-append, replicate,
  drop,
}
use mpcium.Text.BigInt.{set_bytes, set_bytes_from}

pub length-replicate : (n c : ℕ) → length (replicate n c) ≡ n
length-replicate zero c = refl
length-replicate (suc n) c = omega (arith, length-replicate n c)

set_bytes_from-replicate :
    (n : ℕ) (bs : Str) → set_bytes_from 0 (replicate n 0 ++ bs) ≡ set_bytes_from 0 bs
unfolding set_bytes_from
set_bytes_from-replicate zero bs = refl
set_bytes_from-replicate (suc n) bs = set_bytes_from-replicate n bs

-- `bs` with zeros in front to the size.
unfoldable pub zero_padded : ℕ → Str → Str
zero_padded size bs = replicate (size - length bs) 0 ++ bs

pub length-zero_padded :
    (size : ℕ) (bs : Str) → length bs ≤ size → length (zero_padded size bs) ≡ size
unfolding zero_padded
length-zero_padded size bs h = omega (
  arith,
  length-append (replicate (size - length bs) 0) bs,
  length-replicate (size - length bs) 0,
)

pub set_bytes-zero_padded : (size : ℕ) (bs : Str) → set_bytes (zero_padded size bs) ≡ set_bytes bs
unfolding zero_padded set_bytes
set_bytes-zero_padded size bs = set_bytes_from-replicate (size - length bs) bs

pub length-drop : (n : ℕ) (bs : Str) → n ≤ length bs → length (drop n bs) ≡ length bs - n
length-drop zero bs h = omega arith
length-drop (suc n) [] h = omega arith
length-drop (suc n) (b ∷ bs) h = omega (arith, length-drop n bs (omega arith))
