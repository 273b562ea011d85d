-- ===== src/Node/Reshare.antt =====
-- When a node joins a resharing, and with which committees: CreateReshareSession of pkg/mpc/node.go.
use mpcium.Base.{ℕ, ◌+◌, ◌≤◌, ◌≡◌, Bool, true, List, Str, contains, length, ok, All}
use mpcium.Keyinfo.{KeyInfo}
use mpcium.Registry.{get_ready_peers_include_self}
use mpcium.Party.{Tss, party_id_to_node_id, generate_party_ids}
use mpcium.Node.Sessions.{
  Node, SessionType, purpose_keygen, purpose_reshare, ReshareSession, get_key_info, get_version,
}
use mpcium.Node.Signing.{ready_participants}

-- What an opened resharing session says.
pub record Reshares (tss : Tss) (p : Node) (t : SessionType) (wallet_id : Str) (new_threshold : ℕ)
    (new_ids : List Str) (is_new : Bool) (info : KeyInfo) (s : ReshareSession) : Type 0 where
  pub key : get_key_info p t wallet_id ≡ ok info
  pub wallet : s.base.wallet_id ≡ wallet_id
  pub new_ready :
      All (λ id. contains (get_ready_peers_include_self p.peer_registry) id ≡ true) new_ids
  pub new_enough : new_threshold + 1 ≤ length new_ids
  pub old_enough : info.threshold + 1 ≤ length (ready_participants p info)
  pub self : party_id_to_node_id s.base.self_party_id ≡ p.node_id
  pub role : s.is_new_peer ≡ is_new
  pub thresholds : (s.base.threshold ≡ info.threshold) × (s.new_threshold ≡ new_threshold)
  pub version : ℕ
  pub version_read : get_version p t wallet_id ≡ ok version
  pub committees :
      (s.old_party_ids
        ≡ (generate_party_ids tss 0 p.node_id purpose_keygen (ready_participants p info) version).1)
      × (s.new_party_ids
          ≡ (generate_party_ids tss
              (length (ready_participants p info))
              p.node_id
              purpose_reshare
              new_ids
              (version + 1)).1)
