-- ===== src/Session/Messages.antt =====
-- Sending and receiving the messages of the threshold protocols in pkg/mpc/session.go.
use mpcium.Base.{
  ℕ, suc, Bool, true, false, ◌&&◌, ◌||◌, if◌then◌else◌, Option, none, some, List, [], ◌∷◌, ◌++◌,
  Str, str_eq, ok, err,
}
use mpcium.Event.{is_empty}
use mpcium.Identity.{TssMessage, verify_message}
use mpcium.Identity.Messages.{sign_message, encrypt_message, decrypt_message}
use mpcium.Party.{PartyId, party_id_to_node_id, compare_party_ids}
use mpcium.Session.{Update, updated, refused, panicked, Library, Session, Failure}
use mpcium.Session
use mpcium.Session.Topics.{
  Curve, ecdsa, eddsa, compose_broadcast_topic, compose_direct_topic,
  extract_sender_id_from_direct_topic,
}
use mpcium.Session.Rounds.{RoundInfo, ecdsa_round, eddsa_round}

-- A message that the party has on its channel, with its routing; `wire` is `none` where WireBytes fails.
pub record Outgoing : Type 0 where
  pub wire : Option Str
  pub is_broadcast : Bool
  pub from : PartyId
  pub to : List PartyId

-- How the network answers in a call: whether publishing succeeds, SendToSelf and SendToOther by their
-- topic, and the nonce that the random source gives for the receiver at a place of the list.
pub record Network : Type 0 where
  pub publishes : Bool
  pub delivers_to_self : Str → Bool
  pub delivers_to_other : Str → Bool
  pub nonce : ℕ → Option Str

-- What a session does on the network, and the errors that it sends on ErrCh.
pub data Action : Type 0 where
  publish send_to_self send_to_other : Str → Str → Action
  send_err : Failure → Action

-- types.NewTssMessage
unfoldable pub new_tss_message : Str → Str → Bool → PartyId → List PartyId → TssMessage
new_tss_message wallet_id msg_bytes is_broadcast from to = record {
  wallet_id = wallet_id;
  msg_bytes = msg_bytes;
  is_broadcast = is_broadcast;
  sender = from;
  to = to;
  is_to_old_committee = false;
  is_to_old_and_new_committees = false;
  signature = none;
}

abbrev pub is_nil {ℓ} : {A : Type ℓ} → List A → Bool
is_nil [] = true
is_nil (x ∷ xs) = false

-- The loop for isToSelf.
unfoldable pub is_to_self : PartyId → List PartyId → Bool
unfolding compare_party_ids
is_to_self self [] = false
is_to_self self (to ∷ tos) = compare_party_ids to self || is_to_self self tos

module _ {ℓ} {P : Type ℓ} (lib : Library P) where
  -- The broadcast of handleTssMessage: signed, then published.
  unfoldable pub broadcast_tss_message : Network → Session P → TssMessage → List Action
  unfolding sign_message compose_broadcast_topic
  broadcast_tss_message net s msg = elim (sign_message lib.crypto s.identity_store msg) [
    | err e ↦ send_err (Session.sign_failed e) ∷ []
    | ok signature ↦ elim (lib.marshal (record msg { signature = some signature })) [
      | none ↦ send_err Session.marshal_failed ∷ []
      | some payload ↦
          publish (compose_broadcast_topic s.curve s.protocol s.wallet_id) payload
          ∷ (if net.publishes then [] else send_err Session.publish_failed ∷ [])
    ]
  ]

  -- The part of the loop for another node. After an error of the encryption the nil cipher is sent.
  unfoldable pub send_to_node : Network → Session P → ℕ → Str → Str → Str → List Action
  unfolding encrypt_message
  send_to_node net s n topic payload node_id =
      let (cipher, errors) : Str × List Action =
        elim (encrypt_message lib.aead s.identity_store (net.nonce n) payload node_id) [
          | err e ↦ ([], send_err (Session.encrypt_failed e) ∷ [])
          | ok cipher ↦ (cipher, [])
        ] in
      errors
      ++ send_to_other topic cipher
        ∷ (if net.delivers_to_other topic
            then []
            else send_err (Session.to_other_failed topic) ∷ [])

  -- The loop of handleTssMessage over the receivers, from the n-th on.
  unfoldable pub send_to_all : Network → Session P → ℕ → Str → List PartyId → List Action
  unfolding send_to_node compose_direct_topic
  send_to_all net s n payload [] = []
  send_to_all net s n payload (to ∷ tos) =
      let self_id = party_id_to_node_id (some s.self_party_id) in
      let node_id = party_id_to_node_id (some to) in
      let topic = compose_direct_topic s.curve s.protocol s.wallet_id self_id node_id in
      let to_self : List Action =
        send_to_self topic payload
        ∷ (if net.delivers_to_self topic
            then []
            else send_err (Session.to_self_failed topic) ∷ []) in
      let to_other = send_to_node net s n topic payload node_id in
      (if str_eq self_id node_id then to_self else to_other)
      ++ send_to_all net s (suc n) payload tos

  -- The messages of handleTssMessage that are not broadcast.
  unfoldable pub send_tss_message : Network → Session P → TssMessage → List Action
  unfolding send_to_all
  send_tss_message net s msg = elim (lib.marshal msg) [
    | none ↦ send_err Session.marshal_failed ∷ []
    | some payload ↦ send_to_all net s 0 payload msg.to
  ]

  -- handleTssMessage
  unfoldable pub handle_tss_message : Network → Session P → Outgoing → List Action
  unfolding new_tss_message broadcast_tss_message send_tss_message
  handle_tss_message net s out = elim out.wire [
    | none ↦ send_err Session.wire_failed ∷ []
    | some wire ↦
        let msg = new_tss_message s.wallet_id wire out.is_broadcast out.from out.to in
        if out.is_broadcast && is_nil out.to
        then broadcast_tss_message net s msg
        else send_tss_message net s msg
  ]

  -- GetEcdsaMsgRound and GetEddsaMsgRound; `none` is their error.
  unfoldable pub get_msg_round : Curve → Str → PartyId → Bool → Option RoundInfo
  unfolding ecdsa_round eddsa_round
  get_msg_round ecdsa msg party_id is_broadcast = elim (lib.parse_ecdsa msg party_id is_broadcast) [
    | none ↦ none
    | some content ↦ ecdsa_round content
  ]
  get_msg_round eddsa msg party_id is_broadcast = elim (lib.parse_eddsa msg party_id is_broadcast) [
    | none ↦ none
    | some content ↦ eddsa_round content
  ]

  -- UpdateFromBytes on the session's party; a panic of it is recovered from.
  unfoldable pub update_party : Session P → TssMessage → Session P × Option Failure
  update_party s msg =
      elim (lib.update_from_bytes s.party msg.msg_bytes msg.sender msg.is_broadcast) [
        | updated party ↦ (record s { party = party }, none)
        | refused party ↦ (record s { party = party }, none)
        | panicked party ↦ (record s { party = party }, some Session.update_panicked)
      ]

  -- receiveTssMessage
  unfoldable pub receive_tss_message : Session P → TssMessage → Session P × Option Failure
  unfolding get_msg_round is_to_self update_party
  receive_tss_message s msg =
      elim (get_msg_round s.curve msg.msg_bytes s.self_party_id msg.is_broadcast) [
        | none ↦ (s, some Session.broken_share)
        | some round ↦
            if (msg.is_broadcast && is_nil msg.to) || is_to_self s.self_party_id msg.to
            then update_party s msg
            else (s, none)
      ]

  -- receiveP2PTssMessage from the text on.
  unfoldable pub receive_plaintext : Session P → Str → Session P × Option Failure
  unfolding receive_tss_message
  receive_plaintext s plaintext = elim (lib.unmarshal plaintext) [
    | none ↦ (s, some Session.unmarshal_failed)
    | some msg ↦ receive_tss_message s msg
  ]

  -- receiveP2PTssMessage
  unfoldable pub receive_p2p_tss_message : Session P → Str → Str → Session P × Option Failure
  unfolding extract_sender_id_from_direct_topic receive_plaintext decrypt_message
  receive_p2p_tss_message s topic cipher =
      let sender_id = extract_sender_id_from_direct_topic topic in
      if is_empty sender_id
      then (s, some Session.no_sender)
      else if str_eq sender_id (party_id_to_node_id (some s.self_party_id))
      then receive_plaintext s cipher
      else elim (decrypt_message lib.aead s.identity_store cipher sender_id) [
        | err e ↦ (s, some (Session.decrypt_failed e))
        | ok plaintext ↦ receive_plaintext s plaintext
      ]

  -- receiveBroadcastTssMessage
  unfoldable pub receive_broadcast_tss_message : Session P → Str → Session P × Option Failure
  unfolding verify_message receive_tss_message
  receive_broadcast_tss_message s payload = elim (lib.unmarshal payload) [
    | none ↦ (s, some Session.unmarshal_failed)
    | some msg ↦ elim (verify_message lib.crypto s.identity_store msg) [
      | err e ↦ (s, some (Session.verify_failed e))
      | ok verified ↦ receive_tss_message s msg
    ]
  ]
