-- ===== src/Identity/Senders.antt =====
-- Whose key a message between nodes is verified with: VerifyMessage of pkg/identity/identity.go on
-- the party ids of pkg/mpc/party_id.go.
use mpcium.Base.{ℕ, ◌≡◌, ap, ◌∙◌, true, some, Str, lookup, ok, bind_ok, fail_if_ok, sym}
use mpcium.Party.{create_party_id}
use mpcium.Party.NodeId.{IsNodeId, before-party_key}
use mpcium.Identity.{
  Crypto, Store, TssMessage, require, no_signature, unknown_sender, marshal_failed, sender_node_id,
  marshal_for_signing, verify_message,
}
use mpcium.Identity.Authorization.{require_ok, unnegate}

-- A message whose sender is a party id of a node is only accepted if the node's own public key is
-- known and the signature of the message is one of its signed bytes by that key.
verify_message-sender :
    (c : Crypto) (s : Store) (msg : TssMessage) (uuid id label : Str) (version : ℕ)
    → IsNodeId id
    → msg.sender ≡ create_party_id uuid id label version
    → verify_message c s msg ≡ ok tt
    → (key : Str) × (signed : Str) × (signature : Str) × (lookup id s.public_keys ≡ some key)
      × (marshal_for_signing c msg ≡ some signed)
      × (msg.signature ≡ some signature)
      × (c.ed25519_verify key signed signature ≡ true)
unfolding verify_message sender_node_id create_party_id
verify_message-sender c s msg uuid id label version v e h =
    let (signature, g, h1) = bind_ok (require msg.signature no_signature) _ h in
    let (key, k, h2) =
      bind_ok (require (lookup (sender_node_id msg.sender) s.public_keys) unknown_sender) _ h1 in
    let (signed, b, h3) = bind_ok (require (marshal_for_signing c msg) marshal_failed) _ h2 in
    let named : sender_node_id msg.sender ≡ id =
      ap sender_node_id e ∙ before-party_key id version v in
    (
      key,
      signed,
      signature,
      ap (λ n. lookup n s.public_keys) (sym named) ∙ require_ok _ _ k,
      require_ok _ _ b,
      require_ok _ _ g,
      unnegate _ (fail_if_ok _ _ h3),
    )
