-- ===== src/Exchange.antt =====
-- The exchange of keys between nodes, pkg/mpc/key_exchange_session.go: every node broadcasts an
-- ephemeral X25519 key that it has signed, and derives a symmetric key with each peer from it.
mod Info
mod Agreement
mod Examples
use mpcium.Base.{
  ℕ, Bool, true, false, ◌&&◌, if◌then◌else◌, Option, none, some, List, [], ◌∷◌, ◌++◌, ◌==◌, ltb,
  length, Str, codes, str_eq, Outcome, ok, err, ◌>>=◌, ◌≡◌,
}
use mpcium.Identity.{Crypto, Store, EcdhMessage}
use mpcium.Identity.Messages.{
  set_symmetric_key, remove_symmetric_key, get_symmetric_key_count, sign_ecdh_message,
  verify_signature,
}
use mpcium.Identity

-- crypto/ecdh on X25519, HKDF and encoding/json: the public key of a private one, whether
-- NewPublicKey takes a text, the secret of a private and a public key, the 32 bytes that HKDF with
-- SHA-256 and no salt gives for a secret and an info, and the texts of a message. By its
-- documentation X25519 is a Diffie-Hellman exchange; and what is marshalled is read back.
pub record Ecdh : Type 0 where
  pub public_key : Str → Str
  pub is_public_key : Str → Bool
  pub ecdh : Str → Str → Option Str
  pub hkdf : Str → Str → Option Str
  pub marshal : EcdhMessage → Str
  pub unmarshal : Str → Option EcdhMessage
  pub public_key-IsKey : (a : Str) → is_public_key (public_key a) ≡ true
  pub ecdh_comm : (a b : Str) → ecdh a (public_key b) ≡ ecdh b (public_key a)
  pub unmarshal-marshal : (m : EcdhMessage) → unmarshal (marshal m) ≡ some m

-- ecdhSession; its public key is the one of `private_key`, and `has_callback` tells whether
-- onKeyExchangeComplete is set.
pub record EcdhSession : Type 0 where
  pub node_id : Str
  pub peer_ids : List Str
  pub private_key : Option Str
  pub identity_store : Store
  pub has_callback : Bool

pub data Failure : Type 0 where
  bad_signature : Identity.Error → Failure
  bad_public_key no_secret no_symmetric_key no_public_key not_published key_not_generated
        not_subscribed :
      Failure
  -- A nil private key.
  panicked : Failure

-- What the handler does besides: an error on errCh, and the call of onKeyExchangeComplete.
pub data Event : Type 0 where
  error_sent : Failure → Event
  completed : Event

-- ECDHExchangeTopic
abbrev pub ecdh_exchange_topic : Str
ecdh_exchange_topic = codes "ecdh:exchange"

-- NewECDHSession
unfoldable pub new_ecdh_session : Str → List Str → Store → EcdhSession
new_ecdh_session node_id peer_ids store = record {
  node_id = node_id;
  peer_ids = peer_ids;
  private_key = none;
  identity_store = store;
  has_callback = false;
}

-- RemovePeer
unfoldable pub remove_peer : EcdhSession → Str → EcdhSession
unfolding remove_symmetric_key
remove_peer e peer_id = record e { identity_store = remove_symmetric_key e.identity_store peer_id }

-- GetReadyPeersCount
unfoldable pub get_ready_peers_count : EcdhSession → ℕ
unfolding get_symmetric_key_count
get_ready_peers_count e = get_symmetric_key_count e.identity_store

-- OnKeyExchangeComplete
unfoldable pub on_key_exchange_complete : EcdhSession → EcdhSession
on_key_exchange_complete e = record e { has_callback = true }

-- ListenKeyExchange, given the private key that is generated, or none, and whether the subscription
-- succeeds.
unfoldable pub listen_key_exchange : Option Str → Bool → EcdhSession → EcdhSession × Option Failure
listen_key_exchange none subscribed e = (e, some key_not_generated)
listen_key_exchange (some key) subscribed e =
    (record e { private_key = some key }, if subscribed then none else some not_subscribed)

-- `a < b` on strings
unfoldable pub str_lt : Str → Str → Bool
str_lt [] [] = false
str_lt [] (y ∷ b) = true
str_lt (x ∷ a) [] = false
str_lt (x ∷ a) (y ∷ b) = let rest = str_lt a b in if x == y then rest else ltb x y

-- deriveConsistentInfo
unfoldable pub derive_consistent_info : Str → Str → Str
unfolding str_lt
derive_consistent_info a b = if str_lt a b then a ++ b else b ++ a

-- deriveSymmetricKey: the key, nil after an error, and the error that is sent.
unfoldable pub derive_symmetric_key : Ecdh → EcdhSession → Str → Str → Option Str × List Event
unfolding derive_consistent_info
derive_symmetric_key x e secret peer_id =
    elim (x.hkdf secret (derive_consistent_info e.node_id peer_id)) [
      | none ↦ (none, error_sent no_symmetric_key ∷ [])
      | some key ↦ (some key, [])
    ]

abbrev pub from_option {ℓ} : {A : Type ℓ} → Option A → Failure → Outcome Failure A
from_option none f = err f
from_option (some a) f = ok a

abbrev pub from_identity {ℓ} : {A : Type ℓ} → Outcome Identity.Error A → Outcome Failure A
from_identity (ok a) = ok a
from_identity (err e) = err (bad_signature e)

-- The handler up to the shared secret: the signature, the peer's key, and ECDH with it.
unfoldable pub peer_secret : Ecdh → Crypto → EcdhSession → EcdhMessage → Outcome Failure Str
unfolding verify_signature
peer_secret x c e msg = do
  verified ← from_identity (verify_signature c e.identity_store msg)
  peer_key ←
      from_option (if x.is_public_key msg.public_key then some msg.public_key else none)
        bad_public_key
  key ← from_option e.private_key panicked
  from_option (x.ecdh key peer_key) no_secret

-- The test for the end of the exchange.
unfoldable pub progress : EcdhSession → List Event
unfolding get_ready_peers_count
progress e =
    if (get_ready_peers_count e == length e.peer_ids) && e.has_callback then completed ∷ [] else []

-- The handler after the test for a message of the node's own.
unfoldable pub receive_from_peer :
    Ecdh → Crypto → EcdhSession → EcdhMessage → EcdhSession × List Event
unfolding peer_secret derive_symmetric_key set_symmetric_key progress
receive_from_peer x c e msg = elim (peer_secret x c e msg) [
  | err f ↦ (e, error_sent f ∷ [])
  | ok secret ↦
      let (key, errors) = derive_symmetric_key x e secret msg.from in
      let after : EcdhSession = record e {
        identity_store = set_symmetric_key e.identity_store msg.from key;
      } in
      (after, errors ++ progress after)
]

-- The handler of ListenKeyExchange.
unfoldable pub receive : Ecdh → Crypto → EcdhSession → Str → EcdhSession × List Event
unfolding receive_from_peer
receive x c e payload = elim (x.unmarshal payload) [
  | none ↦ (e, [])
  | some msg ↦ if str_eq msg.from e.node_id then (e, []) else receive_from_peer x c e msg
]

-- BroadcastPublicKey at the time `now`, where publishing succeeds or not: what is published under
-- ECDHExchangeTopic, or the error.
unfoldable pub broadcast_public_key : Ecdh → Crypto → Str → Bool → EcdhSession → Outcome Failure Str
unfolding sign_ecdh_message
broadcast_public_key x c now publishes e = do
  key ← from_option e.private_key no_public_key
  let msg : EcdhMessage = record {
    from = e.node_id;
    public_key = x.public_key key;
    timestamp = now;
    signature = none;
  }
  signature ← from_identity (sign_ecdh_message c e.identity_store msg)
  if publishes
      then ok (x.marshal (record msg { signature = some signature }))
      else err not_published
