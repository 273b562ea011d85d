-- ===== src/Node/Keygen.antt =====
-- When a node opens a key generation session: CreateKeyGenSession of pkg/mpc/node.go.
use mathlib.Core.List.{Perm}
use mpcium.Base.{ℕ, ◌≡◌, refl, ◌∙◌, true, ◌++◌, Str, ok, err, All, arith, codes, ◌≢◌}
use mpcium.Keyinfo.{KeyInfo, StoreError}
use mpcium.Registry.{are_peers_ready, get_ready_peers_include_self}
use mpcium.Registry.Counts.{self_ready}
use mpcium.Party.{Tss, party_id_to_node_id, party_ids_to_node_ids, default_version}
use mpcium.Party.NodeId.{IsNodeId}
use mpcium.Party.Committee.{generate_party_ids-perm, generate_party_ids_self}
use mpcium.Node.Sessions.{
  Node, SessionType, ecdsa, eddsa, other, Session, get_key_info, new_keygen_session,
  create_keygen_session, purpose_keygen,
}

-- A key generation session is only opened while the registry reports all peers as ready and no key
-- info can be read for the wallet; then it is the session of all ready nodes.
pub create_keygen_session_ok :
    (tss : Tss) (p : Node) (t : SessionType) (wallet_id : Str) (threshold : ℕ) (s : Session)
    → create_keygen_session tss p t wallet_id threshold ≡ ok s
    → (are_peers_ready p.peer_registry ≡ true)
      × ((info : KeyInfo) → get_key_info p t wallet_id ≢ ok info)
      × (s ≡ new_keygen_session tss p t wallet_id threshold default_version)
unfolding create_keygen_session
create_keygen_session_ok tss p ecdsa wallet_id threshold s h =
    (ground arith, λ info e. ground arith, ground arith)
create_keygen_session_ok tss p eddsa wallet_id threshold s h =
    (ground arith, λ info e. ground arith, ground arith)
create_keygen_session_ok tss p (other x) wallet_id threshold s h = ground arith

-- Whatever error the key info store gives, a failed call of Consul included, the node takes it for
-- the absence of a key: with all peers ready it opens a session that makes a new key.
create_keygen_session-unreadable :
    (tss : Tss) (p : Node) (wallet_id : Str) (threshold : ℕ) (e : StoreError)
    → are_peers_ready p.peer_registry ≡ true
    → p.key_info (codes "ecdsa:" ++ wallet_id) ≡ err e
    → create_keygen_session tss p ecdsa wallet_id threshold
      ≡ ok (new_keygen_session tss p ecdsa wallet_id threshold default_version)
unfolding create_keygen_session get_key_info
create_keygen_session-unreadable tss p wallet_id threshold e r k = rw (r, k) refl

-- In the session of all ready nodes the node has a party id of its own, and the party ids are, up to
-- order, one for each ready node.
pub new_keygen_session-committee :
    (tss : Tss) (p : Node) (t : SessionType) (wallet_id : Str) (threshold version : ℕ)
    → p.peer_registry.node_id ≡ p.node_id
    → IsNodeId p.node_id
    → All IsNodeId (get_ready_peers_include_self p.peer_registry)
    → let s = new_keygen_session tss p t wallet_id threshold version in
      (party_id_to_node_id s.self_party_id ≡ p.node_id)
      × Perm (party_ids_to_node_ids s.party_ids) (get_ready_peers_include_self p.peer_registry)
unfolding new_keygen_session
new_keygen_session-committee tss p t wallet_id threshold version e v vs = (
  generate_party_ids_self tss 0 p.node_id purpose_keygen
        (get_ready_peers_include_self p.peer_registry) version v
      ∙ rw (← e, self_ready p.peer_registry) refl,
  generate_party_ids-perm tss 0 p.node_id purpose_keygen
      (get_ready_peers_include_self p.peer_registry) version vs,
)
