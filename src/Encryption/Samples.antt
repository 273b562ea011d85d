-- ===== src/Encryption/Samples.antt =====
-- Test data: a toy cipher.
use mpcium.Base.{
  ◌≡◌, refl, Option, none, some, ◌++◌, length, drop, take, str_eq, Str, if◌then◌else◌, drop_append,
  take_append, str_eq_refl, ◌==◌,
}
use mpcium.Encryption.{Aead}

abbrev pub toy_unseal : Str → Str → Str → Option Str
toy_unseal key nonce sealed =
    if str_eq (take (length (key ++ nonce)) sealed) (key ++ nonce)
    then some (drop (length (key ++ nonce)) sealed)
    else none

pub toy_unseal_seal :
    (key nonce text : Str) → toy_unseal key nonce ((key ++ nonce) ++ text) ≡ some text
toy_unseal_seal key nonce text =
    rw
      (take_append (key ++ nonce) text, str_eq_refl (key ++ nonce), drop_append (key ++ nonce) text)
      refl

-- The text after the key and the nonce; keys have one byte, nonces two.
abbrev pub toy_aead : Aead
toy_aead = record {
  is_key = λ key. length key == 1;
  nonce_size = 2;
  seal = λ key nonce text. (key ++ nonce) ++ text;
  unseal = toy_unseal;
  unseal-seal = λ key nonce text k n. toy_unseal_seal key nonce text;
}
