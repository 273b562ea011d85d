-- ===== src/Consumer/Examples.antt =====
-- The theorems on the consumers at concrete requests.
use mpcium.Base.{
  Str, ℕ, ◌≡◌, refl, true, false, none, [], ◌∷◌, codes, str_eq, lookup, insert, Dict, ok, err,
  contains,
}
use mpcium.Party.Samples.{plain_tss}
use mpcium.Registry.{Registry, are_peers_ready, is_ecdh_ready, get_ready_peers_include_self}
use mpcium.Keyinfo.{get_failed}
use mpcium.Node.Sessions.{
  Node, create_keygen_session, create_signing_session, get_key_info, keygen_session_of_type,
  get_version, get_ready_peers_for_session, ensure_node_is_participant, signing_session_of_type,
}
use mpcium.Consumer.{Request, try_add_session}
use mpcium.Consumer.Keygen
use mpcium.Consumer.Keygen.Answers.{Answered, handle_keygen_event-Answered}
use mpcium.Consumer.Keygen.Checks.{any, is_init, Checked}
use mpcium.Consumer.Keygen.Stores.{Finished, handle_keygen_event-Finished}
use mpcium.Consumer.Signing
use mpcium.Consumer.Signing.Sessions.{Accepted, handle_signing_event_again}
use mpcium.Consumer.Bridge
use mpcium.Consumer.Authority.{
  ChecksGive, HasAuthority, handle_keygen_event-HasAuthority, handle_signing_event-HasAuthority,
}
use mpcium.Identity
use mpcium.Identity.{
  verify_initiator_message, verify_by, verify_ed25519, authorize_initiator_message,
  provided_signatures, check_required, verify_signatures, verify_all, verify_authorizer_signature,
  verify_with, compose_authorizer_raw,
}
use mpcium.Identity.Samples.{toy, store, message}
use mpcium.Consumer.Resharing
use mpcium.Consumer.Bridge.Settling.{SettledOnce, handle_requests-SettledOnce}

abbrev request : Request
request = record {
  body = codes "{}";
  reply = codes "inbox";
  client_id = codes "svc";
  session_id = codes "s1";
}

abbrev ready_registry : Registry
ready_registry = record {
  node_id = codes "n1";
  peer_node_ids = codes "n2" ∷ [];
  ready_map = (codes "n2", true) ∷ [];
  ready_count = 2;
  ready = true;
  mpc_threshold = 1;
  symmetric_keys = (codes "n2", 7 ∷ []) ∷ [];
  effects = [];
}

abbrev node : Node
node = record {
  node_id = codes "n1";
  peer_registry = ready_registry;
  key_info = λ key. err get_failed;
}

abbrev keygen_calls : Keygen.Calls
keygen_calls = record {
  wallet_id = codes "w1";
  unmarshal_error = none;
  verify_error = none;
  authorize_error = none;
  stored = Keygen.key_not_found;
  tss = plain_tss;
  node = node;
  mpc_threshold = 1;
  error_text = λ e. codes "error";
  ecdsa_end = Keygen.done (codes "pub1");
  eddsa_end = Keygen.done (codes "pub2");
  barrier_error = none;
  timed_out = false;
  marshal = λ r. ok (codes "result");
  store_error = none;
  enqueue_error = λ p. none;
}

handle_keygen_event-Answered_example :
    Answered request (Keygen.handle_keygen_event keygen_calls request 5 []).1
handle_keygen_event-Answered_example =
    handle_keygen_event-Answered keygen_calls request refl (λ r. (codes "result", refl)) 5 []

handle_keygen_event-Finished_example :
    Checked keygen_calls [] × Finished keygen_calls keygen_calls.wallet_id (codes "result")
unfolding Keygen.handle_keygen_event Keygen.replay_or_generate Keygen.guarded Keygen.after_adding
    Keygen.generate Keygen.run_sessions Keygen.end_effects Keygen.after_barriers Keygen.complete
    try_add_session lookup create_keygen_session keygen_session_of_type are_peers_ready
    is_ecdh_ready get_key_info str_eq
handle_keygen_event-Finished_example =
    handle_keygen_event-Finished keygen_calls.wallet_id (codes "result") keygen_calls request 5 []
      refl

abbrev key_node : Node
key_node = record {
  node_id = codes "n1";
  peer_registry = ready_registry;
  key_info = λ key.
      ok (record {
        participant_peer_ids = codes "n1" ∷ codes "n2" ∷ [];
        threshold = 1;
        version = 1;
      });
}

abbrev signing_calls : Signing.Calls
signing_calls = record {
  wallet_id = codes "w1";
  tx_id = codes "t1";
  network_internal_code = codes "eth";
  key_type = Signing.secp256k1;
  unmarshal_error = none;
  verify_error = none;
  authorize_error = none;
  tss = plain_tss;
  node = key_node;
  error_text = λ e. codes "error";
  init_error = none;
  barrier_error = none;
  marshal = λ r. ok (codes "result");
}

signing_calls-Accepted : Accepted signing_calls
signing_calls-Accepted = record { unmarshalled = refl; verified = refl; authorized = refl }

handle_signing_event_again_example :
    let after = (Signing.handle_signing_event signing_calls request 5 []).0 in
    ((Signing.handle_signing_event signing_calls request 6 after).0 ≡ after)
    × (any is_init (Signing.handle_signing_event signing_calls request 6 after).1 ≡ false)
handle_signing_event_again_example =
    handle_signing_event_again signing_calls signing_calls request request 5 6 []
      signing_calls-Accepted signing_calls-Accepted refl refl

abbrev bridge_calls : Bridge.Calls
bridge_calls = record {
  request = request;
  wallet_id = codes "w1";
  tx_id = codes "t1";
  network_internal_code = codes "eth";
  unmarshal_error = none;
  registry = ready_registry;
  not_ready_text = codes "not enough peers";
  inbox = codes "inbox";
  new_session_id = codes "s2";
  subscribe_error = none;
  publish_error = none;
  polls = Bridge.timed_out ∷ Bridge.reply ∷ [];
  marshal = λ r. ok (codes "result");
}

handle_requests-SettledOnce_example :
    SettledOnce (Bridge.handle_signing_request bridge_calls)
    × SettledOnce (Bridge.handle_keygen_request bridge_calls)
handle_requests-SettledOnce_example = handle_requests-SettledOnce bridge_calls

abbrev no_sessions : Dict ℕ
no_sessions = []

abbrev reshare_calls : Str → Resharing.Calls
reshare_calls session_id = record {
  session_id = session_id;
  wallet_id = codes "w1";
  key_type = Signing.secp256k1;
  new_threshold = 1;
  node_ids = codes "n1" ∷ codes "n2" ∷ [];
  unmarshal_error = none;
  verify_error = none;
  authorize_error = none;
  tss = plain_tss;
  node = key_node;
  error_text = λ e. codes "error";
  old_init_error = none;
  new_init_error = none;
  barrier_error = none;
  old_end = Keygen.done [];
  new_end = Keygen.done (codes "pub");
  marshal = λ r. ok (codes "result");
  enqueue_error = λ p. none;
}

abbrev text : Identity.Error → Str
text e = codes "error"

checks_pass : ChecksGive toy store message text none none
unfolding verify_initiator_message verify_by verify_ed25519 authorize_initiator_message
    provided_signatures check_required verify_signatures verify_all verify_authorizer_signature
    verify_with compose_authorizer_raw lookup insert str_eq
checks_pass = (refl, refl)

handle_keygen_event-HasAuthority_example :
    HasAuthority toy store message × (are_peers_ready ready_registry ≡ true)
unfolding Keygen.handle_keygen_event Keygen.replay_or_generate Keygen.guarded Keygen.after_adding
    Keygen.generate try_add_session lookup create_keygen_session keygen_session_of_type
    are_peers_ready is_ecdh_ready get_key_info
handle_keygen_event-HasAuthority_example =
    handle_keygen_event-HasAuthority toy store message text keygen_calls request 5 [] refl
      checks_pass refl

handle_signing_event-HasAuthority_example : HasAuthority toy store message
unfolding Signing.handle_signing_event Signing.after_adding Signing.open_by_key_type
    Signing.open_session Signing.run_session try_add_session lookup create_signing_session
    get_key_info contains str_eq get_version get_ready_peers_for_session ensure_node_is_participant
    signing_session_of_type get_ready_peers_include_self
handle_signing_event-HasAuthority_example =
    handle_signing_event-HasAuthority toy store message text signing_calls request 5 no_sessions
      refl checks_pass refl

abbrev two_sessions : Dict ℕ
two_sessions = (codes "w1-t1", 5) ∷ (codes "w2-t2", 2000) ∷ []
