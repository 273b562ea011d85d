-- ===== src/Session.antt =====
-- The sessions of pkg/mpc/session.go: what a session keeps, its topics, what it sends and receives, and
-- the key shares that it stores.
pub mod Topics
pub mod Rounds
pub mod Messages
pub mod Delivery
pub mod Safety
pub mod Signatures
pub mod Barrier
pub mod Listening
pub mod Closing
pub mod Samples
mod Examples
use mpcium.Base.{ℕ, ◌≡◌, Bool, Option, none, some, List, [], ◌∷◌, Str, Outcome, ok, err}
use mpcium.Encryption.{Aead}
use mpcium.Identity
use mpcium.Identity.{Crypto, Store, TssMessage}
use mpcium.Party.{PartyId}
use mpcium.Session.Topics.{Curve, Protocol}
use mpcium.Session.Rounds.{EcdsaContent, EddsaContent}

-- What UpdateFromBytes does to a party: it takes the message, it refuses it (not ok, or an error), or
-- it panics.
pub data Update {ℓ} (P : Type ℓ) : Type ℓ where
  updated refused panicked : P → Update P

-- The libraries of the sessions: tss.ParseWireMessage with the type of the content, UpdateFromBytes of
-- a tss-lib party, and encoding/json on a TssMessage, which reads back what it marshals.
pub record Library {ℓ} (P : Type ℓ) : Type ℓ where
  pub crypto : Crypto
  pub aead : Aead
  pub parse_ecdsa : Str → PartyId → Bool → Option EcdsaContent
  pub parse_eddsa : Str → PartyId → Bool → Option EddsaContent
  pub update_from_bytes : P → Str → PartyId → Bool → Update P
  pub marshal : TssMessage → Option Str
  pub unmarshal : Str → Option TssMessage
  pub unmarshal-marshal : (m : TssMessage) (s : Str) → marshal m ≡ some s → unmarshal s ≡ some m

-- The fields of `session` that the messages need; its topic composer is given by the curve and the
-- protocol, its getRoundFunc by the curve.
pub record Session {ℓ} (P : Type ℓ) : Type ℓ where
  pub wallet_id : Str
  pub curve : Curve
  pub protocol : Protocol
  pub self_party_id : PartyId
  pub party_ids : List PartyId
  pub party : P
  pub identity_store : Store

-- The errors that are sent on ErrCh.
pub data Failure : Type 0 where
  wire_failed marshal_failed publish_failed no_sender unmarshal_failed broken_share
        update_panicked :
      Failure
  sign_failed encrypt_failed decrypt_failed verify_failed : Identity.Error → Failure
  to_self_failed to_other_failed : Str → Failure
