-- ===== src/Exchange/Agreement.antt =====
-- That the exchange of pkg/mpc/key_exchange_session.go gives two nodes one key, and that messages
-- between them are then opened.
use mpcium.Base.{
  ◌≡◌, refl, sym, ap, ◌∙◌, Bool, true, false, inl, inr, some, Str, arith, str_eq, str_eq_iff,
  str_eq_refl, Option-cases, ok, err, if◌then◌else◌, lookup, lookup-insert, length,
}
use mpcium.Identity.{Crypto, EcdhMessage}
use mpcium.Identity.Messages.{
  set_symmetric_key, sign_ecdh_message, verify_signature, marshal_ecdh_for_signing, encrypt_message,
  decrypt_message, get_symmetric_key,
}
use mpcium.Encryption.{Aead}
use mpcium.Identity.Sealing.{IsKeyPair, decrypt-encrypt_message}
use mpcium.Exchange.{
  Ecdh, EcdhSession, not_published, derive_consistent_info, derive_symmetric_key, peer_secret,
  receive_from_peer, receive, broadcast_public_key,
}
use mpcium.Exchange.Info.{derive_consistent_info_comm}

published :
    (publishes : Bool) {sent payload : Str}
    → (if publishes then ok payload else err not_published) ≡ ok sent
    → payload ≡ sent
published true h = ground arith
published false h = cc

module _ (x : Ecdh) (c : Crypto) where
  -- The message that a node broadcasts, by what it has signed.
  abbrev broadcast_message : Str → EcdhSession → Str → Str → EcdhMessage
  broadcast_message now e key signed = record {
    from = e.node_id;
    public_key = x.public_key key;
    timestamp = now;
    signature = some (c.ed25519_sign e.identity_store.private_key signed);
  }

  -- A broadcast is the marshalled public key with the signature of the node.
  broadcast_inv :
      (now : Str) (publishes : Bool) (e : EcdhSession) (key sent : Str)
      → e.private_key ≡ some key
      → broadcast_public_key x c now publishes e ≡ ok sent
      → (signed : Str) × (c.marshal_ecdh e.node_id (x.public_key key) now ≡ some signed)
        × (x.marshal (broadcast_message now e key signed) ≡ sent)
  unfolding broadcast_public_key sign_ecdh_message marshal_ecdh_for_signing
  broadcast_inv now publishes e key sent k h =
      elim (Option-cases (c.marshal_ecdh e.node_id (x.public_key key) now)) [
        | inl m ↦
            let g =
              rw (broadcast_public_key, k, sign_ecdh_message, marshal_ecdh_for_signing, m) at h in
            cc
        | inr (signed, m) ↦
            let g =
              rw (broadcast_public_key, k, sign_ecdh_message, marshal_ecdh_for_signing, m) at h in
            (signed, m, published publishes g)
      ]

  derived_key :
      (e : EcdhSession) (secret peer_id : Str)
      → (derive_symmetric_key x e secret peer_id).0
        ≡ x.hkdf secret (derive_consistent_info e.node_id peer_id)
  unfolding derive_symmetric_key
  derived_key e secret peer_id =
      elim (Option-cases (x.hkdf secret (derive_consistent_info e.node_id peer_id))) [
        | inl h ↦ rw (derive_symmetric_key, h) refl
        | inr (key, h) ↦ rw (derive_symmetric_key, h) refl
      ]

  -- What a node holds for a peer after the peer's broadcast.
  receive-key :
      (now : Str) (publishes : Bool) (e peer : EcdhSession) (key peer_key public sent secret : Str)
      → broadcast_public_key x c now publishes peer ≡ ok sent
      → peer.private_key ≡ some peer_key
      → e.private_key ≡ some key
      → str_eq peer.node_id e.node_id ≡ false
      → lookup peer.node_id e.identity_store.public_keys ≡ some public
      → IsKeyPair c public peer.identity_store.private_key
      → x.ecdh key (x.public_key peer_key) ≡ some secret
      → get_symmetric_key ((receive x c e sent).0).identity_store peer.node_id
        ≡ some (x.hkdf secret (derive_consistent_info e.node_id peer.node_id))
  unfolding receive receive_from_peer peer_secret verify_signature marshal_ecdh_for_signing
      set_symmetric_key get_symmetric_key
  receive-key now publishes e peer key peer_key public sent secret b pk ek ne known pair dh =
      let (signed, m, s) = broadcast_inv now publishes peer peer_key sent pk b in
      let message = broadcast_message now peer peer_key signed in
      let secret_ok : peer_secret x c e message ≡ ok secret =
        rw (known, m, pair signed, x.public_key-IsKey peer_key, ek, dh) refl in
      rw (sym s, receive, x.unmarshal-marshal message, ne, receive_from_peer, secret_ok)
        (lookup-insert peer.node_id peer.node_id _ e.identity_store.symmetric_keys
          ∙ rw (str_eq_refl peer.node_id, derived_key e secret peer.node_id) refl)

  -- A node has the public key of a peer, of the peer's private key.
  abbrev pub Knows : EcdhSession → EcdhSession → Type 0
  Knows e peer =
      (public : Str) × (lookup peer.node_id e.identity_store.public_keys ≡ some public)
      × IsKeyPair c public peer.identity_store.private_key

  -- When two nodes with different ids know each other's public keys, have generated ephemeral keys
  -- whose ECDH secret exists, and each receives what the other broadcasts, then each holds the key
  -- that HKDF gives for that secret: both hold the same one for each other.
  pub receive-agrees :
      (now_a now_b : Str) (a b : EcdhSession) (key_a key_b sent_a sent_b secret : Str)
      → Knows a b
      → Knows b a
      → str_eq a.node_id b.node_id ≡ false
      → a.private_key ≡ some key_a
      → b.private_key ≡ some key_b
      → x.ecdh key_a (x.public_key key_b) ≡ some secret
      → broadcast_public_key x c now_a true a ≡ ok sent_a
      → broadcast_public_key x c now_b true b ≡ ok sent_b
      → (get_symmetric_key ((receive x c a sent_b).0).identity_store b.node_id
          ≡ some (x.hkdf secret (derive_consistent_info a.node_id b.node_id)))
        × (get_symmetric_key ((receive x c b sent_a).0).identity_store a.node_id
            ≡ some (x.hkdf secret (derive_consistent_info a.node_id b.node_id)))
  receive-agrees now_a now_b a b key_a key_b sent_a sent_b secret (pub_b, kb, pair_b)
        (pub_a, ka, pair_a) ne ea eb dh sa sb =
      let ne' : str_eq b.node_id a.node_id ≡ false =
        ground (arith, str_eq_iff a.node_id b.node_id, str_eq_iff b.node_id a.node_id) in
      (
        receive-key now_b true a b key_a key_b pub_b sent_b secret sb eb ea ne' kb pair_b dh,
        rw (derive_consistent_info_comm a.node_id b.node_id) (
            receive-key now_a true b a key_b key_a pub_a sent_a secret sa ea eb ne ka pair_a
              (x.ecdh_comm key_b key_a ∙ dh)),
      )

  -- After such an exchange, when HKDF gives a key that the cipher takes, what the first node encrypts
  -- for the second, with a nonce of the cipher's size, the second decrypts.
  pub receive-decrypt_message :
      (aead : Aead) (now_a now_b : Str) (a b : EcdhSession)
      (key_a key_b sent_a sent_b secret key nonce plaintext : Str)
      → Knows a b
      → Knows b a
      → str_eq a.node_id b.node_id ≡ false
      → a.private_key ≡ some key_a
      → b.private_key ≡ some key_b
      → x.ecdh key_a (x.public_key key_b) ≡ some secret
      → broadcast_public_key x c now_a true a ≡ ok sent_a
      → broadcast_public_key x c now_b true b ≡ ok sent_b
      → x.hkdf secret (derive_consistent_info a.node_id b.node_id) ≡ some key
      → aead.is_key key ≡ true
      → length nonce ≡ aead.nonce_size
      → (sealed : Str) × (encrypt_message aead
            ((receive x c a sent_b).0).identity_store
            (some nonce)
            plaintext
            b.node_id
          ≡ ok sealed)
        × (decrypt_message aead ((receive x c b sent_a).0).identity_store sealed a.node_id
            ≡ ok plaintext)
  receive-decrypt_message aead now_a now_b a b key_a key_b sent_a sent_b secret key nonce plaintext
        kab kba ne ea eb dh sa sb hk k n =
      let (ga, gb) =
        receive-agrees now_a now_b a b key_a key_b sent_a sent_b secret kab kba ne ea eb dh sa sb in
      decrypt-encrypt_message aead _ _ a.node_id b.node_id key nonce plaintext (ga ∙ ap some hk)
        (gb ∙ ap some hk) k n
