-- ===== src/Session/Examples.antt =====
-- The theorems on the sessions with two toy nodes.
use mpcium.Base.{
  ◌||◌, ℕ, List, ◌≤◌, ◌≢◌, ltb, if◌then◌else◌, Bool-cases, inl, inr, arith, ◌≡◌, ◌⊎◌, refl, true,
  false, some, [], ◌∷◌, ◌++◌, Str, codes, str_eq, str_eq_refl, lookup, ok, All,
}
use mpcium.Identity.{TssMessage, marshal_for_signing, verify_message}
use mpcium.Identity.Messages.{get_symmetric_key, decrypt_message}
use mpcium.Party.{party_ids_to_node_ids, create_party_id, party_id_to_node_id}
use mpcium.Party.Samples.{n1-IsNodeId, n2-IsNodeId}
use mpcium.Session.Topics.{
  ecdsa, keygen, compose_broadcast_topic, compose_direct_topic, extract_sender_id_from_direct_topic,
}
use mpcium.Session.Rounds.{RoundInfo, ecdsa_round}
use mpcium.Session.Messages.{
  Outgoing, publish, send_to_other, handle_tss_message, get_msg_round, update_party,
  new_tss_message, receive_p2p_tss_message, receive_broadcast_tss_message,
}
use mpcium.Session.Delivery.{IsOf, send-receive_p2p_tss_message, send-receive_broadcast_tss_message}
use mpcium.Session.Safety.{
  Guarded, handle_tss_message-Guarded, receive_broadcast_tss_message-Verified,
  receive_p2p_tss_message-Decrypted,
}
use mpcium.Session.Signatures
use mpcium.Session.Signatures.{SignatureData, SigningSession, Vouched, sign_end, sign_end-Vouched}
use mpcium.Session.{Session}
use mpcium.Session.Barrier.{
  Waiting, again, deadline, Ends, topic_of, self_of, wait_for_peers_ready,
  wait_for_peers_ready-Ends,
}
use mpcium.Session.Listening.{Broker, no_subs, close}
use mpcium.Session.Closing.{
  Step, listening, listening_to, subscribing, run, has_barrier, has_broadcast, direct_topics,
  close-run,
}
use mpcium.Session.Closing
use mpcium.Session.Samples.{toy_library, toy_text, toy_unmarshal, first, second, network}
use mpcium.Identity.Samples.{toy}

abbrev last_round : RoundInfo
last_round = record { index = 6; round_msg = codes "DGRound4Message2" }

first-IsOf : IsOf first (codes "n1")
first-IsOf = record {
  uuid = codes "u1";
  label = codes "keygen";
  version = 1;
  named = n1-IsNodeId;
  created = refl;
}

second-IsOf : IsOf second (codes "n2")
second-IsOf = record {
  uuid = codes "u2";
  label = codes "keygen";
  version = 1;
  named = n2-IsNodeId;
  created = refl;
}

abbrev direct : TssMessage
direct =
    new_tss_message (codes "w") (codes "m") false first.self_party_id (second.self_party_id ∷ [])

abbrev direct_out : Outgoing
direct_out = record {
  wire = some (codes "m");
  is_broadcast = false;
  from = first.self_party_id;
  to = second.self_party_id ∷ [];
}

abbrev topic : Str
topic = compose_direct_topic ecdsa keygen (codes "w") (codes "n1") (codes "n2")

abbrev round1 : RoundInfo
round1 = record { index = 0; round_msg = codes "KGRound1Message" }

send-receive_p2p_tss_message_example :
    (cipher : Str) × (handle_tss_message toy_library network first direct_out
      ≡ send_to_other topic cipher ∷ [])
    × (receive_p2p_tss_message toy_library second topic cipher
        ≡ update_party toy_library second direct)
unfolding get_msg_round ecdsa_round get_symmetric_key lookup str_eq
send-receive_p2p_tss_message_example =
    send-receive_p2p_tss_message toy_library network first second (codes "n1") (codes "n2")
      (codes "k") (codes "no") (codes "m") (toy_text direct) false round1 first-IsOf second-IsOf
      refl (refl, refl, refl) refl refl refl refl refl refl refl refl

abbrev broadcast : TssMessage
broadcast = record (new_tss_message (codes "w") (codes "m") true first.self_party_id []) {
  signature = some (codes "Nwmu1");
}

send-receive_broadcast_tss_message_example :
    (handle_tss_message toy_library network first (record {
      wire = some (codes "m");
      is_broadcast = true;
      from = first.self_party_id;
      to = [];
    })
      ≡ publish (compose_broadcast_topic ecdsa keygen (codes "w")) (toy_text broadcast) ∷ [])
    × (receive_broadcast_tss_message toy_library second (toy_text broadcast)
        ≡ update_party toy_library second broadcast)
unfolding get_msg_round ecdsa_round lookup str_eq new_tss_message marshal_for_signing
    create_party_id
send-receive_broadcast_tss_message_example =
    send-receive_broadcast_tss_message toy_library network first second (codes "n1") (codes "N")
      (codes "wmu1") (codes "m") (toy_text broadcast) round1 first-IsOf (refl, refl, refl) refl
      (λ m. str_eq_refl (codes "N" ++ m)) refl refl refl refl

handle_tss_message-Guarded_example :
    All (Guarded toy_library first) (handle_tss_message toy_library network first direct_out)
handle_tss_message-Guarded_example = handle_tss_message-Guarded toy_library first network direct_out

receive_broadcast_tss_message-Verified_example :
    ((receive_broadcast_tss_message toy_library second (toy_text broadcast)).0 ≡ second)
    ⊎ ((msg : TssMessage) × (toy_unmarshal (toy_text broadcast) ≡ some msg)
        × (verify_message toy second.identity_store msg ≡ ok tt))
receive_broadcast_tss_message-Verified_example =
    receive_broadcast_tss_message-Verified toy_library second (toy_text broadcast)

receive_p2p_tss_message-Decrypted_example :
    ((receive_p2p_tss_message toy_library second topic (codes "knotext")).0 ≡ second)
    ⊎ ((extract_sender_id_from_direct_topic topic ≡ party_id_to_node_id (some second.self_party_id))
        ⊎ ((plaintext : Str) × (msg : TssMessage) × (decrypt_message toy_library.aead
                second.identity_store
                (codes "knotext")
                (extract_sender_id_from_direct_topic topic)
              ≡ ok plaintext)
            × (toy_unmarshal plaintext ≡ some msg)))
receive_p2p_tss_message-Decrypted_example =
    receive_p2p_tss_message-Decrypted toy_library second topic (codes "knotext")

abbrev toy_signatures : Signatures.Library Str
toy_signatures = record {
  verify_ecdsa = λ key tx r s. str_eq key r;
  verify_eddsa = λ key tx r s. str_eq key s;
  marshal_result = λ result. some result.tx_id;
}

abbrev signing_session : SigningSession Str
signing_session = record {
  wallet_id = codes "w";
  tx_id = codes "t";
  network_internal_code = codes "eth";
  result_topic = codes "topic";
  idempotent_key = codes "key";
  data_of_key = codes "K";
  tx = codes "hash";
}

abbrev signature_data : SignatureData
signature_data = record {
  r = codes "K";
  s = codes "s";
  signature_recovery = [];
  signature = codes "Ks";
}

sign_end-Vouched_example :
    All
      (Vouched toy_signatures ecdsa signing_session signature_data)
      (sign_end toy_signatures ecdsa true signing_session signature_data)
sign_end-Vouched_example = sign_end-Vouched toy_signatures ecdsa true signing_session signature_data

-- The nodes n1 and n2 in a session; the third request is the first that is answered.
abbrev pair : Session (List Str)
pair = record first { party_ids = first.self_party_id ∷ second.self_party_id ∷ [] }

abbrev waiting : Waiting
waiting = record {
  listens = λ topic. true;
  answers = λ n topic. ltb 1 n;
  choose = λ n. if ltb n 5 then again else deadline;
}

waiting_stops : (n : ℕ) → 5 ≤ n → waiting.choose n ≢ again
waiting_stops n h = elim (Bool-cases (ltb n 5)) [
  | inl e ↦ ground arith
  | inr e ↦ rw e (λ p. ground arith)
]

test_wait : wait_for_peers_ready pair waiting 9 ≡ some (ok 3)
unfolding wait_for_peers_ready party_ids_to_node_ids str_eq party_id_to_node_id
    mpcium.Text.BigInt.bytes create_party_id mpcium.Party.party_key mpcium.Text.BigInt.set_bytes
    mpcium.Text.Decimal.print_decimal
test_wait = refl

wait_for_peers_ready-Ends_example :
    Ends
      (topic_of pair)
      waiting
      (self_of pair)
      (party_ids_to_node_ids pair.party_ids)
      (wait_for_peers_ready pair waiting 9)
wait_for_peers_ready-Ends_example =
    wait_for_peers_ready-Ends pair waiting 5 9 waiting_stops (omega arith)

-- Of the direct topics, only that from n1 can be listened to; a resharing listens to n3 too.
abbrev broker : Broker
broker = record {
  listens = λ topic.
      str_eq topic (codes "keygen:direct:ecdsa:n1:n1:w")
      || str_eq topic (codes "barrier:keygen:broadcast:ecdsa:w:n1");
  subscribes = λ topic. true;
}

abbrev resharing_steps : List Step
resharing_steps = listening ∷ listening_to (codes "n3" ∷ []) ∷ subscribing ∷ Closing.waiting ∷ []

close-run_example :
    (close (run pair broker resharing_steps no_subs)).1
    ≡ codes "barrier:keygen:broadcast:ecdsa:w:n1"
      ∷ codes "keygen:broadcast:ecdsa:w"
      ∷ codes "keygen:direct:ecdsa:n1:n1:w"
      ∷ []
unfolding has_barrier has_broadcast direct_topics compose_broadcast_topic str_eq
    mpcium.Session.Topics.barrier_topic party_id_to_node_id mpcium.Text.BigInt.bytes create_party_id
    mpcium.Party.party_key mpcium.Text.BigInt.set_bytes mpcium.Text.Decimal.print_decimal
    party_ids_to_node_ids compose_direct_topic
close-run_example = close-run pair broker resharing_steps
