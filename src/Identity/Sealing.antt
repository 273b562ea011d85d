-- ===== src/Identity/Sealing.antt =====
-- Messages between two nodes that hold one symmetric key: EncryptMessage and DecryptMessage of
-- pkg/identity/identity.go.
use mpcium.Base.{◌≡◌, refl, true, some, Str, ok, length}
use mpcium.Encryption.{Aead, decrypt-encrypt_aes_gcm}
use mpcium.Identity.{Crypto, Store}
use mpcium.Identity.Messages.{get_symmetric_key, encrypt_message, decrypt_message}

-- A public key accepts what its private key signs.
abbrev pub IsKeyPair : Crypto → Str → Str → Type 0
IsKeyPair c public private = (m : Str) → c.ed25519_verify public m (c.ed25519_sign private m) ≡ true

-- A node holds a key for a peer.
abbrev pub Holds : Store → Str → Str → Type 0
Holds s peer_id key = get_symmetric_key s peer_id ≡ some (some key)

-- What the first node seals for the second is opened by it.
pub decrypt-encrypt_message :
    (a : Aead) (s t : Store) (s_id t_id key nonce plaintext : Str)
    → Holds s t_id key
    → Holds t s_id key
    → a.is_key key ≡ true
    → length nonce ≡ a.nonce_size
    → (sealed : Str) × (encrypt_message a s (some nonce) plaintext t_id ≡ ok sealed)
      × (decrypt_message a t sealed s_id ≡ ok plaintext)
unfolding encrypt_message decrypt_message
decrypt-encrypt_message a s t s_id t_id key nonce plaintext h g k n =
    let (sealed, e, d) = decrypt-encrypt_aes_gcm a key nonce plaintext k n in
    (sealed, rw (encrypt_message, h, e) refl, rw (decrypt_message, g, d) refl)
