-- ===== src/Consumer/Bridge.antt =====
-- The consumers of the JetStream requests, which hand a request to the event consumer and settle it by
-- the reply: handleSigningEvent of pkg/eventconsumer/sign_consumer.go and handleKeygenEvent of
-- pkg/eventconsumer/keygen_consumer.go.
pub mod Settling
use mpcium.Base.{
  Bool, true, false, not, if◌then◌else◌, Option, none, some, List, [], ◌∷◌, ◌++◌, Str, codes,
  Outcome, ok, err,
}
use mpcium.Event.{signing_result_subject, keygen_result_subject, code_unmarshal_failure}
use mpcium.Registry.{Registry, are_peers_ready, are_majority_ready}
use mpcium.Consumer.{Request, unless, compose_idempotent_key}

-- The calls of a handler, in their order: an error result (subject, payload, idempotent key), the
-- request passed on with a reply inbox and a new session id, and the answers to JetStream.
pub data Act : Type 0 where
  enqueue : Str → Str → Str → Act
  publish_with_reply : Str → Str → Str → Str → Act
  in_progress ack nak : Act

-- What NextMsg returns within its polling interval.
pub data Poll : Type 0 where
  reply no_message timed_out : Poll
  receive_failed : Str → Poll

-- An error result, of an error code and the text of the error.
pub record Failure : Type 0 where
  pub wallet_id : Str
  pub tx_id : Str
  pub network_internal_code : Str
  pub error_code : Str
  pub error_reason : Str

-- The parsed message and what the calls of a handler return; `polls` are those of the time before
-- the deadline, and `request` holds the body and the headers of the JetStream message.
pub record Calls : Type 0 where
  pub request : Request
  pub wallet_id : Str
  pub tx_id : Str
  pub network_internal_code : Str
  pub unmarshal_error : Option Str
  pub registry : Registry
  pub not_ready_text : Str
  pub inbox : Str
  pub new_session_id : Str
  pub subscribe_error : Option Str
  pub publish_error : Option Str
  pub polls : List Poll
  pub marshal : Failure → Outcome Str Str

-- The polling loop and the Nak after it.
unfoldable pub await_reply : List Poll → List Act
await_reply [] = nak ∷ []
await_reply (reply ∷ polls) = ack ∷ []
await_reply (no_message ∷ polls) = await_reply polls
await_reply (timed_out ∷ polls) = in_progress ∷ await_reply polls
await_reply (receive_failed e ∷ polls) = nak ∷ []

unfoldable pub enqueue_failure : Calls → Str → Str → Str → Str → List Act
enqueue_failure k subject key code e =
    elim (k.marshal (record {
      wallet_id = k.wallet_id;
      tx_id = k.tx_id;
      network_internal_code = k.network_internal_code;
      error_code = code;
      error_reason = e;
    })) [ err m ↦ [] | ok payload ↦ enqueue subject payload key ∷ [] ]

-- handleSigningError
unfoldable pub handle_signing_error : Calls → Str → Str → List Act
unfolding enqueue_failure
handle_signing_error k code e =
    enqueue_failure k (signing_result_subject k.request.client_id)
      (compose_idempotent_key (codes "mpc.mpc_signing_result.") k.tx_id k.request.client_id
        k.request.session_id)
      code e

-- handleKeygenError
unfoldable pub handle_keygen_error : Calls → Str → Str → List Act
unfolding enqueue_failure
handle_keygen_error k code e =
    enqueue_failure k (keygen_result_subject k.request.client_id k.wallet_id)
      (compose_idempotent_key (codes "mpc.mpc_keygen_result.") k.wallet_id k.request.client_id
        k.request.session_id)
      code e

-- From the reply inbox on, for the subject that the event consumer listens to.
unfoldable pub forward : Calls → Str → List Act
unfolding await_reply
forward k subject =
    unless k.subscribe_error (λ e. nak ∷ [])
      (publish_with_reply subject k.inbox k.request.body k.new_session_id
        ∷ unless k.publish_error (λ e. nak ∷ []) (await_reply k.polls))

-- handleSigningEvent
unfoldable pub handle_signing_request : Calls → List Act
unfolding handle_signing_error forward
handle_signing_request k =
    unless k.unmarshal_error (λ e. handle_signing_error k code_unmarshal_failure e ++ (ack ∷ []))
      (if not (are_majority_ready k.registry)
        then handle_signing_error k (codes "ERROR_NOT_MAJORITY") k.not_ready_text ++ (ack ∷ [])
        else forward k (codes "mpc:sign"))

-- handleKeygenEvent
unfoldable pub handle_keygen_request : Calls → List Act
unfolding handle_keygen_error forward
handle_keygen_request k =
    unless k.unmarshal_error (λ e. handle_keygen_error k code_unmarshal_failure e ++ (ack ∷ []))
      (if not (are_peers_ready k.registry)
        then handle_keygen_error k (codes "ERROR_CLUSTER_NOT_READY")
            (codes "not all peers are ready")
          ++ (ack ∷ [])
        else forward k (codes "mpc:generate"))
