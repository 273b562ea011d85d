-- ===== src/Session/Delivery.antt =====
-- That what handleTssMessage of pkg/mpc/session.go sends is what the receiver's session updates its
-- party with, for messages to one node and for broadcasts.
use mpcium.Base.{
  ℕ, ◌≡◌, refl, sym, ap, ◌∙◌, Bool, true, false, some, [], ◌∷◌, Str, str_eq, str_eq_refl, length,
  lookup, ok, arith, ◌&&◌, ◌||◌,
}
use mpcium.Event.{is_empty}
use mpcium.Identity.{TssMessage, marshal_for_signing, verify_message, sender_node_id}
use mpcium.Identity.Messages.{sign_message, encrypt_message, decrypt_message}
use mpcium.Identity.Sealing.{IsKeyPair, Holds, decrypt-encrypt_message}
use mpcium.Party.{PartyId, create_party_id, party_id_to_node_id, compare_party_ids}
use mpcium.Party.NodeId.{IsNodeId, before-party_key, party_id_to_node_id-create_party_id}
use mpcium.Text.BigInt.{bytes}
use mpcium.Session.{Library, Session}
use mpcium.Session.Topics.{
  compose_broadcast_topic, compose_direct_topic,
  extract_sender_id_from_direct_topic-compose_direct_topic,
}
use mpcium.Session.Rounds.{RoundInfo}
use mpcium.Session.Messages.{
  Network, publish, send_to_other, new_tss_message, broadcast_tss_message, send_to_node,
  send_to_all, send_tss_message, is_nil, handle_tss_message, get_msg_round, is_to_self,
  update_party, receive_tss_message, receive_plaintext, receive_p2p_tss_message,
  receive_broadcast_tss_message,
}

module _ {ℓ} {P : Type ℓ} where
  -- The session is one of the node `id`, whose party id createPartyID made.
  pub record IsOf (s : Session P) (id : Str) : Type 0 where
    pub uuid : Str
    pub label : Str
    pub version : ℕ
    pub named : IsNodeId id
    pub created : s.self_party_id ≡ create_party_id uuid id label version

  -- The two sessions have the same topics.
  abbrev pub SameTopics : Session P → Session P → Type 0
  SameTopics s t = (t.curve ≡ s.curve) × (t.protocol ≡ s.protocol) × (t.wallet_id ≡ s.wallet_id)

  self_node_id :
      (s : Session P) (id : Str) → IsOf s id → party_id_to_node_id (some s.self_party_id) ≡ id
  self_node_id s id o =
      ap (λ p. party_id_to_node_id (some p)) o.created
      ∙ party_id_to_node_id-create_party_id o.uuid id o.label o.version o.named

  sender_of : (s : Session P) (id : Str) → IsOf s id → sender_node_id s.self_party_id ≡ id
  unfolding sender_node_id create_party_id
  sender_of s id o = ap sender_node_id o.created ∙ before-party_key id o.version o.named

is_empty-IsNodeId : (id : Str) → IsNodeId id → is_empty id ≡ false
is_empty-IsNodeId [] v = elim v.starts [ ]
is_empty-IsNodeId (c ∷ id) v = refl

and_false : (b : Bool) → (b && false) ≡ false
and_false b = ground arith

addressed :
    (flag : Bool) (self : PartyId)
    → ((flag && is_nil (self ∷ [])) || is_to_self self (self ∷ [])) ≡ true
unfolding is_to_self compare_party_ids
addressed flag self = rw (and_false flag, str_eq_refl (bytes self.key)) refl

module _ {ℓ} {P : Type ℓ} (lib : Library P) where
  -- A message with a known round that the session's node is to receive updates its party.
  receive_to :
      (s : Session P) (msg : TssMessage) (round : RoundInfo)
      → get_msg_round lib s.curve msg.msg_bytes s.self_party_id msg.is_broadcast ≡ some round
      → ((msg.is_broadcast && is_nil msg.to) || is_to_self s.self_party_id msg.to) ≡ true
      → receive_tss_message lib s msg ≡ update_party lib s msg
  unfolding receive_tss_message
  receive_to s msg round r h = rw (receive_tss_message, r, h) refl

  send_to_one :
      (net : Network) (s : Session P) (to : PartyId) (id_s id_t wire payload cipher : Str)
      (flag : Bool)
      → party_id_to_node_id (some s.self_party_id) ≡ id_s
      → party_id_to_node_id (some to) ≡ id_t
      → str_eq id_s id_t ≡ false
      → lib.marshal (new_tss_message s.wallet_id wire flag s.self_party_id (to ∷ [])) ≡ some payload
      → encrypt_message lib.aead s.identity_store (net.nonce 0) payload id_t ≡ ok cipher
      → net.delivers_to_other (compose_direct_topic s.curve s.protocol s.wallet_id id_s id_t) ≡ true
      → handle_tss_message lib net s
          (record { wire = some wire; is_broadcast = flag; from = s.self_party_id; to = to ∷ [] })
        ≡ send_to_other (compose_direct_topic s.curve s.protocol s.wallet_id id_s id_t) cipher ∷ []
  unfolding handle_tss_message send_tss_message send_to_all send_to_node new_tss_message
  send_to_one net s to id_s id_t wire payload cipher flag us ut ne m e d =
      rw (and_false flag, send_tss_message, m, send_to_all, us, ut, ne, send_to_node, e, d) refl

  receive_from_one :
      (t : Session P) (id_s id_t key cipher payload : Str) (msg : TssMessage)
      → IsNodeId id_s
      → party_id_to_node_id (some t.self_party_id) ≡ id_t
      → str_eq id_s id_t ≡ false
      → decrypt_message lib.aead t.identity_store cipher id_s ≡ ok payload
      → lib.unmarshal payload ≡ some msg
      → receive_p2p_tss_message lib t
          (compose_direct_topic t.curve t.protocol t.wallet_id id_s id_t)
          cipher
        ≡ receive_tss_message lib t msg
  unfolding receive_p2p_tss_message receive_plaintext
  receive_from_one t id_s id_t key cipher payload msg v ut ne d u =
      rw
        (
          extract_sender_id_from_direct_topic-compose_direct_topic t.curve t.protocol t.wallet_id
              id_s id_t v.plain,
          is_empty-IsNodeId id_s v,
          ut,
          ne,
          d,
          receive_plaintext,
          u,
        )
        refl

  -- A message that a session sends to one other node, when both sessions have the same topics, the two
  -- nodes hold one symmetric key that the cipher takes, a nonce of its size is drawn and the network
  -- delivers, goes out as one ciphertext under the receiver's topic; from it the receiver's session
  -- updates its party with the bytes, the sender and the flag that were sent, when their round is known.
  pub send-receive_p2p_tss_message :
      (net : Network) (s t : Session P) (id_s id_t key nonce wire payload : Str) (flag : Bool)
      (round : RoundInfo)
      → IsOf s id_s
      → IsOf t id_t
      → str_eq id_s id_t ≡ false
      → SameTopics s t
      → Holds s.identity_store id_t key
      → Holds t.identity_store id_s key
      → lib.aead.is_key key ≡ true
      → net.nonce 0 ≡ some nonce
      → length nonce ≡ lib.aead.nonce_size
      → net.delivers_to_other (compose_direct_topic t.curve t.protocol t.wallet_id id_s id_t) ≡ true
      → lib.marshal (new_tss_message s.wallet_id wire flag s.self_party_id (t.self_party_id ∷ []))
        ≡ some payload
      → get_msg_round lib t.curve wire t.self_party_id flag ≡ some round
      → (cipher : Str) × (handle_tss_message lib net s (record {
        wire = some wire;
        is_broadcast = flag;
        from = s.self_party_id;
        to = t.self_party_id ∷ [];
      })
          ≡ send_to_other (compose_direct_topic t.curve t.protocol t.wallet_id id_s id_t) cipher
            ∷ [])
        × (receive_p2p_tss_message lib t
              (compose_direct_topic t.curve t.protocol t.wallet_id id_s id_t)
              cipher
            ≡ update_party lib t
                (new_tss_message s.wallet_id wire flag s.self_party_id (t.self_party_id ∷ [])))
  unfolding new_tss_message
  send-receive_p2p_tss_message net s t id_s id_t key nonce wire payload flag round os ot ne
        (tc, tp, tw) hs ht k nn nl dl m r =
      let (cipher, e, d) =
        decrypt-encrypt_message lib.aead s.identity_store t.identity_store id_s id_t key nonce
          payload hs ht k nl in
      let topic_eq : compose_direct_topic s.curve s.protocol s.wallet_id id_s id_t
          ≡ compose_direct_topic t.curve t.protocol t.wallet_id id_s id_t =
        rw (tc, tp, tw) refl in
      let msg = new_tss_message s.wallet_id wire flag s.self_party_id (t.self_party_id ∷ []) in
      let us = self_node_id s id_s os in
      let ut = self_node_id t id_t ot in
      (
        cipher,
        rw (sym topic_eq) (
            send_to_one net s t.self_party_id id_s id_t wire payload cipher flag us ut ne m
              (rw nn e) (rw topic_eq dl)),
        receive_from_one t id_s id_t key cipher payload msg os.named ut ne d
              (lib.unmarshal-marshal msg payload m)
            ∙ receive_to t msg round r (addressed flag t.self_party_id),
      )

  -- A broadcast of a session, when the receiver knows the public key of the sender's private key and
  -- publishing succeeds, goes out as one signed message under the receiver's broadcast topic; from it
  -- the receiver's session updates its party with the bytes and the sender that were sent, when their
  -- round is known.
  pub send-receive_broadcast_tss_message :
      (net : Network) (s t : Session P) (id_s public signed wire payload : Str) (round : RoundInfo)
      → IsOf s id_s
      → SameTopics s t
      → lookup id_s t.identity_store.public_keys ≡ some public
      → IsKeyPair lib.crypto public s.identity_store.private_key
      → net.publishes ≡ true
      → marshal_for_signing lib.crypto (new_tss_message s.wallet_id wire true s.self_party_id [])
        ≡ some signed
      → lib.marshal (record (new_tss_message s.wallet_id wire true s.self_party_id []) {
        signature = some (lib.crypto.ed25519_sign s.identity_store.private_key signed);
      })
        ≡ some payload
      → get_msg_round lib t.curve wire t.self_party_id true ≡ some round
      → (handle_tss_message lib net s
            (record { wire = some wire; is_broadcast = true; from = s.self_party_id; to = [] })
          ≡ publish (compose_broadcast_topic t.curve t.protocol t.wallet_id) payload ∷ [])
        × (receive_broadcast_tss_message lib t payload
            ≡ update_party lib t
                (record (new_tss_message s.wallet_id wire true s.self_party_id []) {
                  signature = some (lib.crypto.ed25519_sign s.identity_store.private_key signed);
                }))
  unfolding handle_tss_message broadcast_tss_message receive_broadcast_tss_message sign_message
      verify_message marshal_for_signing new_tss_message
  send-receive_broadcast_tss_message net s t id_s public signed wire payload round os (tc, tp, tw)
        known pair pu g m r =
      let msg : TssMessage = record (new_tss_message s.wallet_id wire true s.self_party_id []) {
        signature = some (lib.crypto.ed25519_sign s.identity_store.private_key signed);
      } in
      let named = sender_of s id_s os in
      let verified : verify_message lib.crypto t.identity_store msg ≡ ok tt =
        rw (named, known, g, pair signed) refl in
      (
        rw (broadcast_tss_message, sign_message, g, m, pu, tc, tp, tw) refl,
        rw (receive_broadcast_tss_message, lib.unmarshal-marshal msg payload m, verified)
            (receive_to t msg round r refl),
      )
