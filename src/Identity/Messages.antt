-- ===== src/Identity/Messages.antt =====
-- How nodes sign, seal and check their messages: the methods of pkg/identity/identity.go on
-- symmetric keys, TSS messages and ECDH messages.
use mpcium.Base.{
  ℕ, Bool, not, Option, ◌==◌, length, Str, lookup, insert, erase, Outcome, ok, err, ◌>>=◌, fail_if,
}
use mpcium.Encryption
use mpcium.Encryption.{Aead, encrypt_aes_gcm_with_nonce_embed, decrypt_aes_gcm_with_nonce_embed}
use mpcium.Identity.{
  Crypto, Store, Error, TssMessage, EcdhMessage, require, marshal_for_signing, no_signature,
  unknown_sender, marshal_failed, invalid_signature, no_symmetric_key, cipher_failed,
}

-- SetSymmetricKey
unfoldable pub set_symmetric_key : Store → Str → Option Str → Store
set_symmetric_key s peer_id key = record s { symmetric_keys = insert peer_id key s.symmetric_keys }

-- GetSymmetricKey: `none` is an error, `some none` a nil key.
unfoldable pub get_symmetric_key : Store → Str → Option (Option Str)
get_symmetric_key s peer_id = lookup peer_id s.symmetric_keys

-- RemoveSymmetricKey
unfoldable pub remove_symmetric_key : Store → Str → Store
remove_symmetric_key s peer_id = record s { symmetric_keys = erase peer_id s.symmetric_keys }

-- GetSymetricKeyCount
unfoldable pub get_symmetric_key_count : Store → ℕ
get_symmetric_key_count s = length s.symmetric_keys

-- CheckSymmetricKeyComplete
unfoldable pub check_symmetric_key_complete : Store → ℕ → Bool
check_symmetric_key_complete s desired = length s.symmetric_keys == desired

-- SignMessage
unfoldable pub sign_message : Crypto → Store → TssMessage → Outcome Error Str
unfolding marshal_for_signing
sign_message c s msg = do
  signed ← require (marshal_for_signing c msg) marshal_failed
  ok (c.ed25519_sign s.private_key signed)

-- MarshalForSigning of an ECDHMessage
unfoldable pub marshal_ecdh_for_signing : Crypto → EcdhMessage → Option Str
marshal_ecdh_for_signing c msg = c.marshal_ecdh msg.from msg.public_key msg.timestamp

-- SignEcdhMessage
unfoldable pub sign_ecdh_message : Crypto → Store → EcdhMessage → Outcome Error Str
unfolding marshal_ecdh_for_signing
sign_ecdh_message c s msg = do
  signed ← require (marshal_ecdh_for_signing c msg) marshal_failed
  ok (c.ed25519_sign s.private_key signed)

-- VerifySignature
unfoldable pub verify_signature : Crypto → Store → EcdhMessage → Outcome Error (Unit {0})
unfolding marshal_ecdh_for_signing
verify_signature c s msg = do
  signature ← require msg.signature no_signature
  key ← require (lookup msg.from s.public_keys) unknown_sender
  signed ← require (marshal_ecdh_for_signing c msg) marshal_failed
  fail_if (not (c.ed25519_verify key signed signature)) invalid_signature

abbrev pub from_cipher {ℓ} : {A : Type ℓ} → Outcome Encryption.Error A → Outcome Error A
from_cipher (ok a) = ok a
from_cipher (err e) = err cipher_failed

-- EncryptMessage, with the nonce that the random source gives.
unfoldable pub encrypt_message : Aead → Store → Option Str → Str → Str → Outcome Error Str
unfolding get_symmetric_key
encrypt_message a s random plaintext peer_id = do
  found ← require (get_symmetric_key s peer_id) no_symmetric_key
  key ← require found no_symmetric_key
  from_cipher (encrypt_aes_gcm_with_nonce_embed a random plaintext key)

-- DecryptMessage
unfoldable pub decrypt_message : Aead → Store → Str → Str → Outcome Error Str
unfolding get_symmetric_key
decrypt_message a s sealed peer_id = do
  found ← require (get_symmetric_key s peer_id) no_symmetric_key
  key ← require found no_symmetric_key
  from_cipher (decrypt_aes_gcm_with_nonce_embed a sealed key)
