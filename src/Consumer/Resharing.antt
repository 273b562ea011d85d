-- ===== src/Consumer/Resharing.antt =====
-- The handler of resharing requests in consumeReshareEvent of pkg/eventconsumer/event_consumer.go. It
-- never answers a request: its results go to the clients only.
pub mod Sessions
use mpcium.Base.{
  ℕ, Bool, true, false, if◌then◌else◌, Option, none, some, List, [], ◌∷◌, ◌++◌, Str, codes, Outcome,
  ok, err,
}
use mpcium.Event.{is_empty, get_error_code_from_error, reshare_result_subject}
use mpcium.Party.{Tss}
use mpcium.Node.Sessions.{
  Node, SessionType, ecdsa, eddsa, ReshareSession, Error, create_reshare_session,
}
use mpcium.Consumer.{Request, Effect, enqueue, init, unless, compose_idempotent_key}
use mpcium.Consumer.Keygen.{SessionEnd, done, failed}
use mpcium.Consumer.Signing.{KeyType, secp256k1, ed25519, other}

-- event.ResharingResultEvent, as an error (code, reason) and as a success (public key).
pub data Result : Type 0 where
  failure : Str → Str → Result
  success : Str → Result

-- The message, and what the calls of the handler return. The ends are those of the goroutines that
-- wait for the sessions; the public key of the new session is the one that GetPubKeyResult gives.
pub record Calls : Type 0 where
  pub session_id : Str
  pub wallet_id : Str
  pub key_type : KeyType
  pub new_threshold : ℕ
  pub node_ids : List Str
  pub unmarshal_error : Option Str
  pub verify_error : Option Str
  pub authorize_error : Option Str
  pub tss : Tss
  pub node : Node
  pub error_text : Error → Str
  pub old_init_error : Option Str
  pub new_init_error : Option Str
  pub barrier_error : Option Str
  pub old_end : SessionEnd
  pub new_end : SessionEnd
  pub marshal : Result → Outcome Str Str
  pub enqueue_error : Str → Option Str

-- sessionTypeFromKeyType
unfoldable pub session_type_from_key_type : KeyType → Outcome Str SessionType
session_type_from_key_type secp256k1 = ok ecdsa
session_type_from_key_type ed25519 = ok eddsa
session_type_from_key_type (other s) = err (codes "unsupported key type: " ++ s)

-- composeReshareIdempotentKey
unfoldable pub compose_reshare_idempotent_key : Str → Request → Str
compose_reshare_idempotent_key session_id req =
    compose_idempotent_key (codes "mpc.mpc_reshare_result.") session_id req.client_id req.session_id

unfoldable pub enqueue_reshare_result : Calls → Request → Str → Effect
unfolding compose_reshare_idempotent_key
enqueue_reshare_result k req payload =
    enqueue (reshare_result_subject req.client_id k.session_id) payload
      (compose_reshare_idempotent_key k.session_id req)

-- handleReshareSessionError, of an error text in a context
unfoldable pub handle_reshare_session_error : Calls → Request → Str → Str → List Effect
handle_reshare_session_error k req context e =
    elim (k.marshal (failure (get_error_code_from_error e) (context ++ (codes ": " ++ e)))) [
      | err m ↦ []
      | ok payload ↦ if is_empty k.session_id then [] else enqueue_reshare_result k req payload ∷ []
    ]

-- A session that exists is initialised, then what follows.
unfoldable pub init_session :
    Calls
    → Request
    → SessionType
    → Str
    → Option Str
    → Option ReshareSession
    → List Effect
    → List Effect
init_session k req t context error none rest = rest
init_session k req t context error (some session) rest =
    init t ∷ unless error (handle_reshare_session_error k req context) rest

-- What the goroutine of a session that exists does with the session's error.
unfoldable pub end_effects :
    Calls → Request → Str → Option ReshareSession → SessionEnd → List Effect
end_effects k req context none end = []
end_effects k req context (some session) (done key) = []
end_effects k req context (some session) (failed e) = handle_reshare_session_error k req context e

-- The part after the goroutines have ended.
unfoldable pub publish_success : Calls → Request → Option ReshareSession → SessionEnd → List Effect
publish_success k req none end = []
publish_success k req (some session) (failed e) = []
publish_success k req (some session) (done key) =
    if is_empty key then [] else elim (k.marshal (success key)) [
      | err e ↦
          handle_reshare_session_error k req (codes "Failed to marshal reshare success event") e
      | ok payload ↦
          enqueue_reshare_result k req payload
          ∷ unless (k.enqueue_error payload)
              (handle_reshare_session_error k req
                (codes "Failed to publish reshare success message"))
              []
    ]

-- From the initialisation of the sessions on.
unfoldable pub run_sessions :
    Calls → Request → SessionType → Option ReshareSession → Option ReshareSession → List Effect
unfolding init_session end_effects publish_success
run_sessions k req t none none = []
run_sessions k req t old new =
    init_session k req t (codes "Failed to init old reshare session") k.old_init_error old (
      init_session k req t (codes "Failed to init new reshare session") k.new_init_error new (
        unless k.barrier_error
          (handle_reshare_session_error k req (codes "Peers not ready before resharing"))
          (end_effects k req (codes "Old reshare session error") old k.old_end
            ++ (end_effects k req (codes "New reshare session error") new k.new_end
                ++ publish_success k req new k.new_end))))

unfoldable pub create : Calls → SessionType → Bool → Outcome Error (Option ReshareSession)
create k t is_new =
    create_reshare_session k.tss k.node t k.wallet_id k.new_threshold k.node_ids is_new

-- What follows the two calls of CreateReshareSession, of their results; the second call is only made
-- after the first one succeeded, which makes no difference as it changes nothing.
unfoldable pub after_creating :
    Calls
    → Request
    → SessionType
    → Outcome Error (Option ReshareSession)
    → Outcome Error (Option ReshareSession)
    → List Effect
unfolding run_sessions
after_creating k req t (err e) new =
    handle_reshare_session_error k req (codes "Failed to create old reshare session")
      (k.error_text e)
after_creating k req t (ok old) (err e) =
    handle_reshare_session_error k req (codes "Failed to create new reshare session")
      (k.error_text e)
after_creating k req t (ok old) (ok new) = run_sessions k req t old new

unfoldable pub reshare_by_type : Calls → Request → Outcome Str SessionType → List Effect
unfolding after_creating create
reshare_by_type k req (err e) =
    handle_reshare_session_error k req (codes "Failed to get session type") e
reshare_by_type k req (ok t) = after_creating k req t (create k t false) (create k t true)

-- The handler that consumeReshareEvent subscribes.
unfoldable pub handle_reshare_event : Calls → Request → List Effect
unfolding reshare_by_type session_type_from_key_type
handle_reshare_event k req =
    unless k.unmarshal_error
      (handle_reshare_session_error k req (codes "Failed to unmarshal resharing message"))
      (if is_empty k.session_id
        then handle_reshare_session_error k req (codes "Session ID is empty")
            (codes "validation: session ID is empty")
        else unless k.verify_error
            (handle_reshare_session_error k req (codes "Failed to verify initiator message"))
            (unless k.authorize_error
              (handle_reshare_session_error k req (codes "Failed to authorize initiator message"))
              (reshare_by_type k req (session_type_from_key_type k.key_type))))
