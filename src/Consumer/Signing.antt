-- ===== src/Consumer/Signing.antt =====
-- handleSigningEvent of pkg/eventconsumer/event_consumer.go.
pub mod Sessions
use mpcium.Base.{
  ℕ, Bool, true, false, Option, none, some, List, [], ◌∷◌, ◌++◌, Str, codes, Dict, Outcome, ok, err,
}
use mpcium.Event.{get_error_code_from_error, signing_result_subject}
use mpcium.Party.{Tss}
use mpcium.Node.Sessions.{
  Node, SessionType, ecdsa, eddsa, Error, not_in_participant_list, create_signing_session,
}
use mpcium.Consumer.{
  Request, Effect, enqueue, init, sign, unless, compose_idempotent_key, send_reply_to_remove_msg,
  try_add_session,
}

-- types.KeyType
pub data KeyType : Type 0 where
  secp256k1 ed25519 : KeyType
  other : Str → KeyType

-- An event.SigningResultEvent of an error: network code, wallet, transaction, error code, reason.
pub record Failure : Type 0 where
  pub network_internal_code : Str
  pub wallet_id : Str
  pub tx_id : Str
  pub error_code : Str
  pub error_reason : Str

-- The message, and what the calls of the handler return.
pub record Calls : Type 0 where
  pub wallet_id : Str
  pub tx_id : Str
  pub network_internal_code : Str
  pub key_type : KeyType
  pub unmarshal_error : Option Str
  pub verify_error : Option Str
  pub authorize_error : Option Str
  pub tss : Tss
  pub node : Node
  pub error_text : Error → Str
  pub init_error : Option Str
  pub barrier_error : Option Str
  pub marshal : Failure → Outcome Str Str

-- composeSigningIdempotentKey
unfoldable pub compose_signing_idempotent_key : Str → Request → Str
compose_signing_idempotent_key tx_id req =
    compose_idempotent_key (codes "mpc.mpc_signing_result.") tx_id req.client_id req.session_id

-- handleSigningSessionError, of an error text in a context
unfoldable pub handle_signing_session_error : Calls → Request → Str → Str → List Effect
unfolding compose_signing_idempotent_key
handle_signing_session_error k req context e =
    elim (k.marshal (record {
      network_internal_code = k.network_internal_code;
      wallet_id = k.wallet_id;
      tx_id = k.tx_id;
      error_code = get_error_code_from_error e;
      error_reason = context ++ (codes ": " ++ e);
    })) [
      | err m ↦ []
      | ok payload ↦
          enqueue (signing_result_subject req.client_id) payload
            (compose_signing_idempotent_key k.tx_id req)
          ∷ send_reply_to_remove_msg req
    ]

-- From the initialisation of the session on. Sign runs on its own; see `signing_events`.
unfoldable pub run_session : Calls → Request → SessionType → List Effect
run_session k req t =
    init t
    ∷ unless k.init_error
        (handle_signing_session_error k req (codes "Failed to init signing session"))
        (unless k.barrier_error
          (handle_signing_session_error k req (codes "Peers not ready before signing"))
          (sign t ∷ []))

-- What is done with an error of CreateSigningSession; none of its errors is ErrNotEnoughParticipants.
unfoldable pub creation_failed : Calls → Request → Error → List Effect
creation_failed k req not_in_participant_list = []
creation_failed k req e =
    handle_signing_session_error k req (codes "Failed to create signing session") (k.error_text e)

unfoldable pub open_session : Calls → Request → SessionType → List Effect
unfolding run_session creation_failed
open_session k req t = elim (create_signing_session k.tss k.node t k.wallet_id) [
  | err e ↦ creation_failed k req e
  | ok session ↦ run_session k req t
]

-- The switch over the key type.
unfoldable pub open_by_key_type : Calls → Request → KeyType → List Effect
unfolding open_session
open_by_key_type k req secp256k1 = open_session k req ecdsa
open_by_key_type k req ed25519 = open_session k req eddsa
open_by_key_type k req (other s) =
    handle_signing_session_error k req (codes "Failed to create signing session")
      (codes "unsupported key type: " ++ s)

-- What follows tryAddSession, of its result.
unfoldable pub after_adding : Calls → Request → Dict ℕ × Bool → Dict ℕ × List Effect
unfolding open_by_key_type
after_adding k req (added, true) = (added, open_by_key_type k req k.key_type)
after_adding k req (added, false) = (
  added,
  handle_signing_session_error k req (codes "Duplicate session") (
      codes "duplicate signing request detected for walletID="
      ++ (k.wallet_id ++ (codes " txID=" ++ k.tx_id))),
)

-- handleSigningEvent
unfoldable pub handle_signing_event : Calls → Request → ℕ → Dict ℕ → Dict ℕ × List Effect
unfolding after_adding
handle_signing_event k req now active =
    unless k.unmarshal_error (λ e. (active, []))
      (unless k.verify_error (λ e. (active, []))
        (unless k.authorize_error (λ e. (active, []))
          (after_adding k req (try_add_session now k.wallet_id k.tx_id active))))

-- What happens in a session: it reports an error, or Sign calls onSuccess.
pub data SessionEvent : Type 0 where
  reported : Str → SessionEvent
  signed : SessionEvent

-- The goroutine that waits for an error, while its context is not done, and onSuccess.
unfoldable pub signing_events : Calls → Request → Bool → List SessionEvent → List Effect
signing_events k req waiting [] = []
signing_events k req true (reported e ∷ events) =
    handle_signing_session_error k req (codes "Failed to sign tx") e
    ++ signing_events k req false events
signing_events k req false (reported e ∷ events) = signing_events k req false events
signing_events k req waiting (signed ∷ events) =
    send_reply_to_remove_msg req ++ signing_events k req false events
