-- ===== src/Encryption.antt =====
-- The sealing of messages in pkg/encryption/aes.go: AES-GCM with the nonce in front.
pub mod Samples
use mpcium.Base.{
  ℕ, ◌+◌, ◌≤◌, ◌≡◌, refl, ap, ◌∙◌, Bool, true, false, not, if◌then◌else◌, ltb, ltb_ge, length,
  length-append, take, drop, take-length, drop-length, ◌==◌, sym, Option, none, some, List, [], ◌∷◌,
  ◌++◌, Str, Outcome, ok, err, ◌>>=◌, fail_if, arith, suc, zero,
}

-- crypto/aes and crypto/cipher: whether NewCipher takes a key, the nonce's size, and Seal and Open on
-- a key, a nonce and a text, with no additional data. By their documentation, Open undoes Seal.
pub record Aead : Type 0 where
  pub is_key : Str → Bool
  pub nonce_size : ℕ
  pub seal : Str → Str → Str → Str
  pub unseal : Str → Str → Str → Option Str
  pub unseal-seal :
      (key nonce text : Str)
      → is_key key ≡ true
      → length nonce ≡ nonce_size
      → unseal key nonce (seal key nonce text) ≡ some text

pub data Error : Type 0 where
  -- `panicked`: a nonce that the cipher cannot take.
  bad_key no_randomness too_short decryption_failed panicked : Error

-- EncryptAESGCMWithNonceEmbed, where the random source gives the nonce, or fails.
unfoldable pub encrypt_aes_gcm_with_nonce_embed : Aead → Option Str → Str → Str → Outcome Error Str
encrypt_aes_gcm_with_nonce_embed a random plaintext key = do
  accepted ← fail_if (not (a.is_key key)) bad_key
  elim random [ none ↦ err no_randomness | some nonce ↦ ok (nonce ++ a.seal key nonce plaintext) ]

-- DecryptAESGCMWithNonceEmbed
unfoldable pub decrypt_aes_gcm_with_nonce_embed : Aead → Str → Str → Outcome Error Str
decrypt_aes_gcm_with_nonce_embed a sealed key = do
  accepted ← fail_if (not (a.is_key key)) bad_key
  long ← fail_if (ltb (length sealed) a.nonce_size) too_short
  elim (a.unseal key (take a.nonce_size sealed) (drop a.nonce_size sealed)) [
    | none ↦ err decryption_failed
    | some text ↦ ok text
  ]

-- EncryptAESGCM: the sealed text and the nonce.
unfoldable pub encrypt_aes_gcm : Aead → Option Str → Str → Str → Outcome Error (Str × Str)
encrypt_aes_gcm a random plain key = do
  accepted ← fail_if (not (a.is_key key)) bad_key
  elim random [ none ↦ err no_randomness | some nonce ↦ ok (a.seal key nonce plain, nonce) ]

-- DecryptAESGCM; a nonce of another size makes Open panic.
unfoldable pub decrypt_aes_gcm : Aead → Str → Str → Str → Outcome Error Str
decrypt_aes_gcm a ciphertext key nonce = do
  accepted ← fail_if (not (a.is_key key)) bad_key
  sized ← fail_if (not (length nonce == a.nonce_size)) panicked
  elim (a.unseal key nonce ciphertext) [ none ↦ err decryption_failed | some text ↦ ok text ]

-- With a key that the cipher takes and a nonce of its size, the sealing with the nonce in front
-- succeeds, and the sealed text is opened with the same key to the text that was sealed.
pub decrypt-encrypt_aes_gcm :
    (a : Aead) (key nonce plaintext : Str)
    → a.is_key key ≡ true
    → length nonce ≡ a.nonce_size
    → (sealed : Str) × (encrypt_aes_gcm_with_nonce_embed a (some nonce) plaintext key ≡ ok sealed)
      × (decrypt_aes_gcm_with_nonce_embed a sealed key ≡ ok plaintext)
unfolding encrypt_aes_gcm_with_nonce_embed decrypt_aes_gcm_with_nonce_embed
decrypt-encrypt_aes_gcm a key nonce plaintext k n =
    let text = a.seal key nonce plaintext in
    let long : ltb (length (nonce ++ text)) a.nonce_size ≡ false =
      ltb_ge _ _ (omega (arith, length-append nonce text, n)) in
    let front : take a.nonce_size (nonce ++ text) ≡ nonce = take-length a.nonce_size nonce text n in
    let back : drop a.nonce_size (nonce ++ text) ≡ text = drop-length a.nonce_size nonce text n in
    (
      nonce ++ text,
      rw k refl,
      rw (k, long, front, back, a.unseal-seal key nonce plaintext k n) refl,
    )
