-- ===== src/Identity.antt =====
-- The checks of signatures in pkg/identity/identity.go, with ComposeAuthorizerRaw of
-- pkg/types/initiator_msg.go. Errors keep what the code tells apart; their texts are left out.
pub mod Authorization
pub mod Messages
pub mod Sealing
pub mod Senders
pub mod Samples
mod Examples
use mpcium.Base.{
  Bool, true, false, not, if◌then◌else◌, leb, length, Option, none, some, List, [], ◌∷◌, Str, Dict,
  lookup, insert, Outcome, ok, err, ◌>>=◌, fail_if,
}
use mpcium.Event.{is_empty}
use mpcium.Party.{PartyId}
use mpcium.Text.BigInt.{bytes}
use mpcium.Text.Split.{before}

-- types.TssMessage; a signature is `none` where it is nil.
pub record TssMessage : Type 0 where
  pub wallet_id : Str
  pub msg_bytes : Str
  pub is_broadcast : Bool
  pub sender : PartyId
  pub to : List PartyId
  pub is_to_old_committee : Bool
  pub is_to_old_and_new_committees : Bool
  pub signature : Option Str

-- types.ECDHMessage; the timestamp is its JSON text.
pub record EcdhMessage : Type 0 where
  pub from : Str
  pub public_key : Str
  pub timestamp : Str
  pub signature : Option Str

-- The libraries: ed25519.Verify on a public key, a message and a signature, ed25519.Sign on a private
-- key and a message, VerifyP256Signature, and encoding/json on the payload that authorizers sign
-- (initiator id, raw message, signature) and on the maps that the two MarshalForSigning make: of the
-- fields of a TssMessage, in their order, with the `Id` of the sender, and of an ECDHMessage.
pub record Crypto : Type 0 where
  pub ed25519_verify : Str → Str → Str → Bool
  pub ed25519_sign : Str → Str → Str
  pub p256_verify : Str → Str → Str → Bool
  pub marshal_authorizer : Str → Str → Str → Option Str
  pub marshal_tss : Str → Str → Bool → Str → List PartyId → Bool → Bool → Option Str
  pub marshal_ecdh : Str → Str → Str → Option Str

pub data Algorithm : Type 0 where
  ed25519 p256 : Algorithm
  unknown : Str → Algorithm

-- A cached authorizer key, by its dynamic type.
pub data PublicKey : Type 0 where
  ed25519_key p256_key : Str → PublicKey

pub data Error : Type 0 where
  raw_failed unsupported_algorithm empty_signature invalid_signature key_not_set compose_failed
        no_signature unknown_sender marshal_failed no_symmetric_key cipher_failed :
      Error
  missing_authorizer authorizer_not_cached authorizer_invalid authorizer_algorithm : Str → Error
  -- A type assertion on a key of another type.
  panicked : Error

-- types.AuthorizerSignature
pub record AuthorizerSignature : Type 0 where
  pub authorizer_id : Str
  pub signature : Str

-- types.InitiatorMessage; `raw` is what Raw returns.
pub record InitiatorMessage : Type 0 where
  pub raw : Option Str
  pub sig : Str
  pub initiator_id : Str
  pub authorizer_signatures : List AuthorizerSignature

-- The fields of fileStore that the checks read: the initiator's key, the authorization
-- configuration, the cached authorizer keys and the public keys of the nodes; and those that messages
-- between nodes use, the node's private key and the symmetric keys, of which one may be nil.
pub record Store : Type 0 where
  pub initiator_algorithm : Algorithm
  pub initiator_ed25519 : Str
  pub initiator_p256 : Option Str
  pub auth_enabled : Bool
  pub required_authorizers : List Str
  pub authorizer_algorithms : Dict Algorithm
  pub cached_authorizer_keys : Dict PublicKey
  pub public_keys : Dict Str
  pub private_key : Str
  pub symmetric_keys : Dict (Option Str)

abbrev pub require {ℓ} : {A : Type ℓ} → Option A → Error → Outcome Error A
require none e = err e
require (some a) e = ok a

-- verifyEd25519
unfoldable pub verify_ed25519 : Crypto → Store → InitiatorMessage → Outcome Error (Unit {0})
verify_ed25519 c s msg = do
  raw ← require msg.raw raw_failed
  present ← fail_if (is_empty msg.sig) empty_signature
  fail_if (not (c.ed25519_verify s.initiator_ed25519 raw msg.sig)) invalid_signature

-- verifyP256
unfoldable pub verify_p256 : Crypto → Store → InitiatorMessage → Outcome Error (Unit {0})
verify_p256 c s msg = do
  raw ← require msg.raw raw_failed
  key ← require s.initiator_p256 key_not_set
  fail_if (not (c.p256_verify key raw msg.sig)) invalid_signature

-- VerifyInitiatorMessage, by the algorithm of the initiator's key.
unfoldable pub verify_by : Crypto → Store → InitiatorMessage → Algorithm → Outcome Error (Unit {0})
unfolding verify_ed25519 verify_p256
verify_by c s msg ed25519 = verify_ed25519 c s msg
verify_by c s msg p256 = verify_p256 c s msg
verify_by c s msg (unknown a) = err unsupported_algorithm

-- VerifyInitiatorMessage
unfoldable pub verify_initiator_message :
    Crypto → Store → InitiatorMessage → Outcome Error (Unit {0})
unfolding verify_by
verify_initiator_message c s msg = verify_by c s msg s.initiator_algorithm

-- ComposeAuthorizerRaw
unfoldable pub compose_authorizer_raw : Crypto → InitiatorMessage → Outcome Error Str
compose_authorizer_raw c msg = do
  raw ← require msg.raw raw_failed
  require (c.marshal_authorizer msg.initiator_id raw msg.sig) compose_failed

-- The switch of verifyAuthorizerSignature, over the algorithm and the type of the cached key.
unfoldable pub verify_with :
    Crypto → Str → AuthorizerSignature → Option Algorithm → PublicKey → Outcome Error (Unit {0})
verify_with c raw sig (some ed25519) (ed25519_key key) =
    fail_if (not (c.ed25519_verify key raw sig.signature)) (authorizer_invalid sig.authorizer_id)
verify_with c raw sig (some ed25519) (p256_key key) = err panicked
verify_with c raw sig (some p256) (p256_key key) =
    fail_if (not (c.p256_verify key raw sig.signature)) (authorizer_invalid sig.authorizer_id)
verify_with c raw sig (some p256) (ed25519_key key) = err panicked
verify_with c raw sig (some (unknown a)) key = err (authorizer_algorithm sig.authorizer_id)
verify_with c raw sig none key = err (authorizer_algorithm sig.authorizer_id)

-- verifyAuthorizerSignature
unfoldable pub verify_authorizer_signature :
    Crypto → Store → Str → AuthorizerSignature → Outcome Error (Unit {0})
unfolding verify_with
verify_authorizer_signature c s raw sig = do
  key ←
      require (lookup sig.authorizer_id s.cached_authorizer_keys)
        (authorizer_not_cached sig.authorizer_id)
  verify_with c raw sig (lookup sig.authorizer_id s.authorizer_algorithms) key

-- The map providedSigs.
unfoldable pub provided_signatures :
    List AuthorizerSignature → Dict AuthorizerSignature → Dict AuthorizerSignature
provided_signatures [] provided = provided
provided_signatures (sig ∷ sigs) provided =
    provided_signatures sigs (insert sig.authorizer_id sig provided)

-- The loop over the required authorizers.
unfoldable pub check_required : Dict AuthorizerSignature → List Str → Outcome Error (Unit {0})
check_required provided [] = ok tt
check_required provided (id ∷ ids) =
    require (lookup id provided) (missing_authorizer id) >>= λ sig. check_required provided ids

-- The loop over the signatures.
unfoldable pub verify_all :
    Crypto → Store → Str → List AuthorizerSignature → Outcome Error (Unit {0})
unfolding verify_authorizer_signature
verify_all c s raw [] = ok tt
verify_all c s raw (sig ∷ sigs) =
    verify_authorizer_signature c s raw sig >>= λ verified. verify_all c s raw sigs

-- AuthorizeInitiatorMessage from the test for no signatures on.
unfoldable pub verify_signatures :
    Crypto → Store → InitiatorMessage → List AuthorizerSignature → Outcome Error (Unit {0})
unfolding compose_authorizer_raw verify_all
verify_signatures c s msg [] = ok tt
verify_signatures c s msg (sig ∷ sigs) =
    compose_authorizer_raw c msg >>= λ raw. verify_all c s raw (sig ∷ sigs)

-- AuthorizeInitiatorMessage. With no required authorizers the loop over them does nothing.
unfoldable pub authorize_initiator_message :
    Crypto → Store → InitiatorMessage → Outcome Error (Unit {0})
unfolding provided_signatures check_required verify_signatures
authorize_initiator_message c s msg =
    if not s.auth_enabled
    then ok tt
    else check_required (provided_signatures msg.authorizer_signatures []) s.required_authorizers
      >>= λ complete. verify_signatures c s msg msg.authorizer_signatures

-- MarshalForSigning of a TssMessage: of the sender, only its `Id` is in it.
unfoldable pub marshal_for_signing : Crypto → TssMessage → Option Str
marshal_for_signing c msg =
    c.marshal_tss msg.wallet_id msg.msg_bytes msg.is_broadcast msg.sender.id msg.to
      msg.is_to_old_committee msg.is_to_old_and_new_committees

-- partyIDToNodeID of this package
unfoldable pub sender_node_id : PartyId → Str
unfolding before
sender_node_id p = before b':' (bytes p.key)

-- VerifyMessage
unfoldable pub verify_message : Crypto → Store → TssMessage → Outcome Error (Unit {0})
unfolding sender_node_id marshal_for_signing
verify_message c s msg = do
  signature ← require msg.signature no_signature
  key ← require (lookup (sender_node_id msg.sender) s.public_keys) unknown_sender
  signed ← require (marshal_for_signing c msg) marshal_failed
  fail_if (not (c.ed25519_verify key signed signature)) invalid_signature
