-- ===== src/Keyinfo/Laws.antt =====
-- Reading after writing in the store of pkg/keyinfo/keyinfo.go.
use mpcium.Base.{
  ◌≡◌, refl, ap, true, if◌then◌else◌, inl, inr, Bool-cases, arith, Str, codes, str_eq, str_eq_iff,
  Dict, lookup-insert, append_cancel, ok,
}
use mpcium.Keyinfo.{KeyInfo, Codec, compose_key, get, save}

str_eq-compose_key : (a b : Str) → str_eq (compose_key a) (compose_key b) ≡ str_eq a b
unfolding compose_key
str_eq-compose_key a b = ground (
  arith,
  str_eq_iff a b,
  str_eq_iff (compose_key a) (compose_key b),
  append_cancel (codes "threshold_keyinfo/") a b,
  ap compose_key {x = a} {y = b},
)

-- While Consul answers, a key info that was saved for a wallet is the one that is read for it
-- afterwards, and what is read for every other wallet is as before.
pub get-save :
    (codec : Codec) (consul : Dict Str) (saved asked : Str) (info : KeyInfo)
    → get codec true (save codec true consul saved info).0 asked
      ≡ (if str_eq saved asked then ok info else get codec true consul asked)
unfolding get save
get-save codec consul saved asked info = elim (Bool-cases (str_eq saved asked)) [
  | inl e ↦
      rw
        (
          lookup-insert (compose_key saved) (compose_key asked) (codec.marshal info) consul,
          str_eq-compose_key saved asked,
          e,
          codec.unmarshal-marshal info,
        )
        refl
  | inr e ↦
      rw
        (
          lookup-insert (compose_key saved) (compose_key asked) (codec.marshal info) consul,
          str_eq-compose_key saved asked,
          e,
        )
        refl
]
