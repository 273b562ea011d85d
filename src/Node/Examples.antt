-- ===== src/Node/Examples.antt =====
-- The theorems on sessions at a node of a cluster of two.
use mpcium.Base.{◌≡◌, refl, true, some, List, [], ◌∷◌, Str, codes, contains, str_eq, All, ok, arith}
use mpcium.Keyinfo.{KeyInfo}
use mpcium.Registry.{Registry, get_ready_peers_include_self}
use mpcium.Party.{generate_party_ids}
use mpcium.Party.NodeId.{IsNodeId}
use mpcium.Party.Samples.{plain_tss, n1-IsNodeId, n2-IsNodeId}
use mpcium.Node.Sessions.{
  Node, ecdsa, Session, ReshareSession, get_key_info, get_version, create_signing_session,
  get_ready_peers_for_session, ensure_node_is_participant, signing_session_of_type,
  new_reshare_session, purpose_keygen,
}
use mpcium.Node.Signing.{Opened, ready_participants, create_signing_session-Opened}

abbrev two : List Str
two = codes "n1" ∷ codes "n2" ∷ []

abbrev both_ready : Registry
both_ready = record {
  node_id = codes "n1";
  peer_node_ids = codes "n2" ∷ [];
  ready_map = (codes "n2", true) ∷ [];
  ready_count = 2;
  ready = true;
  mpc_threshold = 1;
  symmetric_keys = (codes "n2", 7 ∷ []) ∷ [];
  effects = [];
}

abbrev key_of_two : KeyInfo
key_of_two = record { participant_peer_ids = two; threshold = 1; version = 1 }

abbrev with_key : Node
with_key = record {
  node_id = codes "n1";
  peer_registry = both_ready;
  key_info = λ key. ok key_of_two;
}

abbrev signing_session : Session
signing_session = record {
  session_type = ecdsa;
  wallet_id = codes "w";
  participant_peer_ids = ready_participants with_key key_of_two;
  self_party_id =
      (generate_party_ids plain_tss 0 (codes "n1") purpose_keygen
        (ready_participants with_key key_of_two) 1).0;
  party_ids =
      (generate_party_ids plain_tss 0 (codes "n1") purpose_keygen
        (ready_participants with_key key_of_two) 1).1;
  threshold = 1;
  pre_params = some 0;
}

signs : create_signing_session plain_tss with_key ecdsa (codes "w") ≡ ok signing_session
unfolding create_signing_session get_version get_key_info get_ready_peers_for_session
    get_ready_peers_include_self ensure_node_is_participant signing_session_of_type contains str_eq
signs = refl

create_signing_session-Opened_example :
    (info : KeyInfo) × Opened plain_tss with_key ecdsa (codes "w") info signing_session
create_signing_session-Opened_example =
    create_signing_session-Opened plain_tss with_key ecdsa (codes "w") signing_session signs

same_key : (info : KeyInfo) → get_key_info with_key ecdsa (codes "w") ≡ ok info → key_of_two ≡ info
unfolding get_key_info
same_key info e = ground arith

key_nodes :
    (info : KeyInfo)
    → get_key_info with_key ecdsa (codes "w") ≡ ok info
    → All IsNodeId info.participant_peer_ids
unfolding get_key_info
key_nodes info e = rw (← same_key info e) (n1-IsNodeId, (n2-IsNodeId, tt))

abbrev reshare_session : ReshareSession
reshare_session =
    new_reshare_session plain_tss with_key ecdsa (codes "w") key_of_two
      (ready_participants with_key key_of_two) 1 two true 1
