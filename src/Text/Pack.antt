-- ===== src/Text/Pack.antt =====
-- A codec for test data, where the code takes encoding/json: a text after its length.
use mpcium.Base.{
  zero, suc, ◌≡◌, refl, Option, none, some, [], ◌∷◌, ◌++◌, Str, length, take, drop, take_append,
  drop_append,
}

unfoldable pub pack : Str → Str → Str
pack s rest = length s ∷ (s ++ rest)

unfoldable pub unpack : Str → Str × Str
unpack [] = ([], [])
unpack (n ∷ t) = (take n t, drop n t)

pub unpack-pack : (s rest : Str) → unpack (pack s rest) ≡ (s, rest)
unfolding pack unpack
unpack-pack s rest = rw (take_append s rest, drop_append s rest) refl

unfoldable pub pack_option : Option Str → Str → Str
pack_option none rest = 0 ∷ rest
pack_option (some s) rest = 1 ∷ pack s rest

unfoldable pub unpack_option : Str → Option Str × Str
unpack_option [] = (none, [])
unpack_option (zero ∷ t) = (none, t)
unpack_option (suc n ∷ t) = (some (unpack t).0, (unpack t).1)

pub unpack-pack_option :
    (o : Option Str) (rest : Str) → unpack_option (pack_option o rest) ≡ (o, rest)
unfolding pack_option unpack_option
unpack-pack_option none rest = refl
unpack-pack_option (some s) rest = rw (unpack-pack s rest) refl
