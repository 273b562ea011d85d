-- ===== src/Text/Endian.antt =====
-- encoding/binary on a uint32, in big endian.
use mpcium.Base.{ℕ, ◌+◌, ◌*◌, ◌/◌, ◌%◌, ◌<◌, ◌≡◌, [], ◌∷◌, Str, arith}

unfoldable pub big_endian_32 : ℕ → Str
big_endian_32 n = (n / 16777216 % 256) ∷ (n / 65536 % 256) ∷ (n / 256 % 256) ∷ (n % 256) ∷ []

unfoldable pub read_big_endian_32 : Str → ℕ
read_big_endian_32 (a ∷ b ∷ c ∷ d ∷ s) = ((a * 256 + b) * 256 + c) * 256 + d
read_big_endian_32 s = 0

pub read-big_endian_32 : (n : ℕ) → n < 4294967296 → read_big_endian_32 (big_endian_32 n) ≡ n
unfolding read_big_endian_32 big_endian_32
read-big_endian_32 n h = omega arith
