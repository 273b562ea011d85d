-- ===== src/Session/Safety.antt =====
-- What leaves a node, and what may change its sessions: pkg/mpc/session.go.
use mpcium.Base.{
  ℕ, suc, ◌≡◌, refl, ◌⊎◌, inl, inr, Bool, true, false, Bool-cases, Option, some, Option-cases, List,
  [], ◌∷◌, Str, str_eq, str_eq_iff, All, All-append, Outcome-cases, ok, if◌then◌else◌, ◌&&◌,
}
use mpcium.Event.{is_empty}
use mpcium.Identity.{TssMessage, verify_message}
use mpcium.Identity.Messages.{sign_message, encrypt_message, decrypt_message}
use mpcium.Party.{PartyId, party_id_to_node_id}
use mpcium.Session.{Library, Session, Failure}
use mpcium.Session.Topics.{
  compose_broadcast_topic, compose_direct_topic, extract_sender_id_from_direct_topic,
}
use mpcium.Session.Messages.{
  Outgoing, Network, Action, publish, send_to_self, send_to_other, send_err, is_nil,
  new_tss_message, broadcast_tss_message, send_to_node, send_to_all, send_tss_message,
  handle_tss_message, receive_plaintext, receive_p2p_tss_message, receive_broadcast_tss_message,
}

module _ {ℓ} {P : Type ℓ} (lib : Library P) (s : Session P) where
  -- Only a signed message is published, and only under the session's broadcast topic; only a text that
  -- was encrypted for a node, or the empty one, is sent to it.
  abbrev pub Guarded : Action → Type 0
  Guarded (publish topic payload) =
      (msg : TssMessage) × (signature : Str) × (topic
        ≡ compose_broadcast_topic s.curve s.protocol s.wallet_id)
      × (sign_message lib.crypto s.identity_store msg ≡ ok signature)
      × (lib.marshal (record msg { signature = some signature }) ≡ some payload)
  Guarded (send_to_other topic payload) =
      (payload ≡ [])
      ⊎ ((node_id : Str) × (nonce : Option Str) × (plaintext : Str) × (topic
            ≡ compose_direct_topic s.curve s.protocol s.wallet_id
                (party_id_to_node_id (some s.self_party_id)) node_id)
          × (encrypt_message lib.aead s.identity_store nonce plaintext node_id ≡ ok payload))
  Guarded (send_to_self topic payload) = Unit
  Guarded (send_err e) = Unit

  -- An error that is reported only where a test fails.
  report-Guarded : (b : Bool) (e : Failure) → All Guarded (if b then [] else send_err e ∷ [])
  report-Guarded true e = tt
  report-Guarded false e = (tt, tt)

  send_to_node-Guarded :
      (net : Network) (n : ℕ) (payload node_id : Str)
      → All Guarded (
          send_to_node lib net s n
            (compose_direct_topic s.curve s.protocol s.wallet_id
              (party_id_to_node_id (some s.self_party_id))
              node_id)
            payload
            node_id)
  unfolding send_to_node
  send_to_node-Guarded net n payload node_id =
      elim (Outcome-cases
        (encrypt_message lib.aead s.identity_store (net.nonce n) payload node_id)) [
          | inl (cipher, e) ↦
              rw (send_to_node, e)
                (inr (node_id, net.nonce n, payload, refl, e), report-Guarded _ _)
          | inr (f, e) ↦ rw (send_to_node, e) (tt, (inl refl, report-Guarded _ _))
        ]

  send_to_all-Guarded :
      (net : Network) (n : ℕ) (payload : Str) (tos : List PartyId)
      → All Guarded (send_to_all lib net s n payload tos)
  unfolding send_to_all
  send_to_all-Guarded net n payload [] = tt
  send_to_all-Guarded net n payload (to ∷ tos) =
      elim (Bool-cases
        (str_eq (party_id_to_node_id (some s.self_party_id)) (party_id_to_node_id (some to)))) [
          | inl e ↦ rw e (
            tt,
            All-append Guarded _ _ (report-Guarded _ _)
                (send_to_all-Guarded net (suc n) payload tos),
          )
          | inr e ↦ rw e (
              All-append Guarded _ _ (send_to_node-Guarded net n payload _)
                (send_to_all-Guarded net (suc n) payload tos))
        ]

  send_tss_message-Guarded :
      (net : Network) (msg : TssMessage) → All Guarded (send_tss_message lib net s msg)
  unfolding send_tss_message
  send_tss_message-Guarded net msg = elim (Option-cases (lib.marshal msg)) [
    | inl e ↦ rw (send_tss_message, e) (tt, tt)
    | inr (payload, e) ↦ rw (send_tss_message, e) (send_to_all-Guarded net 0 payload msg.to)
  ]

  broadcast_tss_message-Guarded :
      (net : Network) (msg : TssMessage) → All Guarded (broadcast_tss_message lib net s msg)
  unfolding broadcast_tss_message
  broadcast_tss_message-Guarded net msg =
      elim (Outcome-cases (sign_message lib.crypto s.identity_store msg)) [
        | inr (f, e) ↦ rw (broadcast_tss_message, e) (tt, tt)
        | inl (signature, e) ↦
            elim (Option-cases (lib.marshal (record msg { signature = some signature }))) [
              | inl m ↦ rw (broadcast_tss_message, e, m) (tt, tt)
              | inr (payload, m) ↦
                  rw (broadcast_tss_message, e, m)
                    ((msg, signature, refl, e, m), report-Guarded _ _)
            ]
      ]

  -- Whatever message a session's party hands it, and whatever the network answers, all that
  -- handleTssMessage puts on the network is guarded: published texts are signed by the node, and what
  -- goes to another node is encrypted for the node that the topic names, or empty.
  pub handle_tss_message-Guarded :
      (net : Network) (out : Outgoing) → All Guarded (handle_tss_message lib net s out)
  unfolding handle_tss_message
  handle_tss_message-Guarded net out = elim (Option-cases out.wire) [
    | inl e ↦ rw e (tt, tt)
    | inr (wire, e) ↦ elim (Bool-cases (out.is_broadcast && is_nil out.to)) [
      | inl b ↦
          rw (e, b)
            (broadcast_tss_message-Guarded net
              (new_tss_message s.wallet_id wire out.is_broadcast out.from out.to))
      | inr b ↦
          rw (e, b)
            (send_tss_message-Guarded net
              (new_tss_message s.wallet_id wire out.is_broadcast out.from out.to))
    ]
  ]

  -- A message from the broadcast topic changes the session only if it is read as a message that
  -- VerifyMessage accepts.
  pub receive_broadcast_tss_message-Verified :
      (payload : Str)
      → ((receive_broadcast_tss_message lib s payload).0 ≡ s)
        ⊎ ((msg : TssMessage) × (lib.unmarshal payload ≡ some msg)
            × (verify_message lib.crypto s.identity_store msg ≡ ok tt))
  unfolding receive_broadcast_tss_message
  receive_broadcast_tss_message-Verified payload = elim (Option-cases (lib.unmarshal payload)) [
    | inl e ↦ inl (rw (receive_broadcast_tss_message, e) refl)
    | inr (msg, e) ↦ elim (Outcome-cases (verify_message lib.crypto s.identity_store msg)) [
      | inl (tt, v) ↦ inr (msg, e, v)
      | inr (f, v) ↦ inl (rw (receive_broadcast_tss_message, e, v) refl)
    ]
  ]

  -- A message from a direct topic changes the session only if the topic names the node itself as the
  -- sender, or if the node that it names shares a symmetric key with which the message is decrypted to
  -- a text that is read as a message.
  pub receive_p2p_tss_message-Decrypted :
      (topic cipher : Str)
      → ((receive_p2p_tss_message lib s topic cipher).0 ≡ s)
        ⊎ ((extract_sender_id_from_direct_topic topic ≡ party_id_to_node_id (some s.self_party_id))
            ⊎ ((plaintext : Str) × (msg : TssMessage) × (decrypt_message lib.aead s.identity_store
                    cipher
                    (extract_sender_id_from_direct_topic topic)
                  ≡ ok plaintext)
                × (lib.unmarshal plaintext ≡ some msg)))
  unfolding receive_p2p_tss_message receive_plaintext
  receive_p2p_tss_message-Decrypted topic cipher =
      let from = extract_sender_id_from_direct_topic topic in
      elim (Bool-cases (is_empty from)) [
        | inl n ↦ inl (rw (receive_p2p_tss_message, n) refl)
        | inr n ↦ elim (Bool-cases (str_eq from (party_id_to_node_id (some s.self_party_id)))) [
          | inl e ↦ inr (inl ((str_eq_iff from _).0 e))
          | inr e ↦ elim (Outcome-cases (decrypt_message lib.aead s.identity_store cipher from)) [
            | inr (f, d) ↦ inl (rw (receive_p2p_tss_message, n, e, d) refl)
            | inl (plaintext, d) ↦ elim (Option-cases (lib.unmarshal plaintext)) [
              | inl u ↦ inl (rw (receive_p2p_tss_message, n, e, d, receive_plaintext, u) refl)
              | inr (msg, u) ↦ inr (inr (plaintext, msg, d, u))
            ]
          ]
        ]
      ]
