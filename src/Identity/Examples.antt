-- ===== src/Identity/Examples.antt =====
-- The theorems on signatures with a toy scheme.
use mpcium.Base.{◌≡◌, refl, true, false, [], some, codes, str_eq, lookup, insert, ok, All}
use mpcium.Party.{create_party_id}
use mpcium.Party.Samples.{n1-IsNodeId}
use mpcium.Party.NodeId.{before-party_key}
use mpcium.Identity.{
  AuthorizerSignature, TssMessage, compose_authorizer_raw, authorize_initiator_message,
  verify_message, provided_signatures, check_required, verify_signatures, verify_all,
  verify_authorizer_signature, verify_with, sender_node_id,
}
use mpcium.Identity.Samples.{toy, store, message}
use mpcium.Identity.Authorization.{Signs, authorize_initiator_message-Signs}

authorize_initiator_message-Signs_example :
    All (Signs toy store message) message.authorizer_signatures
    × All
        (λ id. (sig : AuthorizerSignature) × (sig.authorizer_id ≡ id) × Signs toy store message sig)
        store.required_authorizers
unfolding authorize_initiator_message provided_signatures check_required verify_signatures
    verify_all verify_authorizer_signature verify_with compose_authorizer_raw lookup insert str_eq
authorize_initiator_message-Signs_example =
    authorize_initiator_message-Signs toy store message refl refl

abbrev tss_message : TssMessage
tss_message = record {
  wallet_id = codes "w";
  msg_bytes = codes "m";
  is_broadcast = true;
  sender = create_party_id (codes "u") (codes "n1") (codes "keygen") 0;
  to = [];
  is_to_old_committee = false;
  is_to_old_and_new_committees = false;
  signature = some (codes "Nwmu");
}

accepted : verify_message toy store tss_message ≡ ok tt
unfolding verify_message sender_node_id create_party_id lookup str_eq
accepted = rw (before-party_key (codes "n1") 0 n1-IsNodeId) refl
