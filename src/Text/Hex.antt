-- ===== src/Text/Hex.antt =====
-- encoding/hex: DecodeString.
use mpcium.Base.{ℕ, ◌+◌, ◌-◌, ◌*◌, ◌&&◌, if◌then◌else◌, leb, Option, none, some, [], ◌∷◌, Str}

hex_digit : ℕ → Option ℕ
hex_digit c =
    if leb b'0' c && leb c b'9'
    then some (c - 48)
    else if leb b'a' c && leb c b'f'
    then some (c - 87)
    else if leb b'A' c && leb c b'F'
    then some (c - 55)
    else none

abbrev with_byte : Option ℕ → Option ℕ → Option Str → Option Str
with_byte (some a) (some b) (some s) = some ((a * 16 + b) ∷ s)
with_byte _ _ _ = none

unfoldable pub decode_hex : Str → Option Str
unfolding hex_digit
decode_hex [] = some []
decode_hex (a ∷ []) = none
decode_hex (a ∷ b ∷ s) = with_byte (hex_digit a) (hex_digit b) (decode_hex s)
