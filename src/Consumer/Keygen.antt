-- ===== src/Consumer/Keygen.antt =====
-- handleKeyGenEvent of pkg/eventconsumer/event_consumer.go.
pub mod Answers
pub mod Checks
pub mod Stores
use mpcium.Base.{
  ℕ, Bool, true, false, if◌then◌else◌, not, ◌||◌, Option, none, some, List, [], ◌∷◌, ◌++◌, Str,
  codes, Dict, Outcome, ok, err,
}
use mpcium.Event.{get_error_code_from_error, keygen_result_subject}
use mpcium.Party.{Tss}
use mpcium.Node.Sessions.{Node, SessionType, ecdsa, eddsa, Session, Error, create_keygen_session}
use mpcium.Consumer.{
  Request, Effect, enqueue, publish, init, store, unless, compose_idempotent_key,
  send_reply_to_remove_msg, try_add_session, remove_session,
}

-- event.KeygenResultEvent, as an error and as a success.
pub data Result : Type 0 where
  failure : Str → Str → Str → Result
  success : Str → Str → Str → Result

-- GetWalletCreationResult: bytes, or nil; badger.ErrKeyNotFound; another error.
pub data Stored : Type 0 where
  found : Option Str → Stored
  key_not_found : Stored
  read_failed : Str → Stored

-- How the goroutine of a session ended: its context was done, and it read the session's public key,
-- or the session reported an error.
pub data SessionEnd : Type 0 where
  done : Str → SessionEnd
  failed : Str → SessionEnd

-- What the calls of the handler return: an error is its text. The message is what json.Unmarshal
-- left in it, also where that fails. `timed_out` says that the last `select` took the branch of the
-- deadline; `barrier_error` is what the two barriers left in barrierErr.
pub record Calls : Type 0 where
  pub wallet_id : Str
  pub unmarshal_error : Option Str
  pub verify_error : Option Str
  pub authorize_error : Option Str
  pub stored : Stored
  pub tss : Tss
  pub node : Node
  pub mpc_threshold : ℕ
  pub error_text : Error → Str
  pub ecdsa_end : SessionEnd
  pub eddsa_end : SessionEnd
  pub barrier_error : Option Str
  pub timed_out : Bool
  pub marshal : Result → Outcome Str Str
  pub store_error : Option Str
  pub enqueue_error : Str → Option Str

-- composeKeygenIdempotentKey
unfoldable pub compose_keygen_idempotent_key : Str → Request → Str
compose_keygen_idempotent_key wallet_id req =
    compose_idempotent_key (codes "mpc.mpc_keygen_result.") wallet_id req.client_id req.session_id

unfoldable pub enqueue_result : Calls → Request → Str → Effect
unfolding compose_keygen_idempotent_key
enqueue_result k req payload =
    enqueue (keygen_result_subject req.client_id k.wallet_id) payload
      (compose_keygen_idempotent_key k.wallet_id req)

-- handleKeygenSessionError, of an error text in a context
unfoldable pub handle_keygen_session_error : Calls → Request → Str → Str → List Effect
handle_keygen_session_error k req context e =
    elim (k.marshal
      (failure k.wallet_id (get_error_code_from_error e) (context ++ (codes ": " ++ e)))) [
        | err m ↦ []
        | ok payload ↦ enqueue_result k req payload ∷ send_reply_to_remove_msg req
      ]

-- A result is enqueued and the request answered.
unfoldable pub publish_result : Calls → Request → Str → Str → List Effect
publish_result k req payload context =
    enqueue_result k req payload
    ∷ unless (k.enqueue_error payload) (handle_keygen_session_error k req context)
        (send_reply_to_remove_msg req)

-- The public key that a goroutine put into the success event, and the errors that it handled.
abbrev pub key_of : SessionEnd → Str
key_of (done key) = key
key_of (failed e) = []

abbrev pub is_failed : SessionEnd → Bool
is_failed (done key) = false
is_failed (failed e) = true

unfoldable pub end_effects : Calls → Request → Str → SessionEnd → List Effect
end_effects k req context (done key) = []
end_effects k req context (failed e) = handle_keygen_session_error k req context e

-- From the marshalling of the success event on.
unfoldable pub complete : Calls → Request → List Effect
complete k req = elim (k.marshal (success k.wallet_id (key_of k.ecdsa_end) (key_of k.eddsa_end))) [
  | err e ↦ handle_keygen_session_error k req (codes "Failed to marshal keygen success event") e
  | ok payload ↦
      store k.wallet_id payload
      ∷ unless k.store_error
          (handle_keygen_session_error k req (codes "Failed to store wallet creation result"))
          (publish_result k req payload (codes "Failed to publish key generation success message"))
]

-- From the last `select` on.
unfoldable pub after_barriers : Calls → Request → List Effect
after_barriers k req =
    if k.timed_out
    then handle_keygen_session_error k req (codes "Key generation timed out")
        (codes "keygen session timed out after 30s")
    else if is_failed k.ecdsa_end || is_failed k.eddsa_end
    then []
    else complete k req

-- From the barriers on: what the goroutines did comes first.
unfoldable pub run_sessions : Calls → Request → List Effect
unfolding end_effects
run_sessions k req =
    end_effects k req (codes "ECDSA keygen session error") k.ecdsa_end
    ++ (end_effects k req (codes "EdDSA keygen session error") k.eddsa_end
        ++ unless k.barrier_error
            (handle_keygen_session_error k req (codes "Peers not ready before keygen"))
            (after_barriers k req))

-- The part between the two calls for the table of sessions.
unfoldable pub generate : Calls → Request → List Effect
generate k req = elim (create_keygen_session k.tss k.node ecdsa k.wallet_id k.mpc_threshold) [
  | err e ↦
      handle_keygen_session_error k req (codes "Failed to create ECDSA key generation session")
        (k.error_text e)
  | ok ecdsa_session ↦ elim (create_keygen_session k.tss k.node eddsa k.wallet_id k.mpc_threshold) [
    | err e ↦
        handle_keygen_session_error k req (codes "Failed to create EdDSA key generation session")
          (k.error_text e)
    | ok eddsa_session ↦ init ecdsa ∷ (init eddsa ∷ run_sessions k req)
  ]
]

-- What follows tryAddSession, of its result.
unfoldable pub after_adding : Calls → Request → Dict ℕ × Bool → Dict ℕ × List Effect
after_adding k req (added, true) =
    (remove_session k.wallet_id (codes "keygen") added, generate k req)
after_adding k req (added, false) = (
  added,
  handle_keygen_session_error k req (codes "Duplicate keygen session")
      (codes "duplicate keygen request detected for walletID=" ++ k.wallet_id),
)

-- From the guard against duplicate sessions on.
unfoldable pub guarded : Calls → Request → ℕ → Dict ℕ → Dict ℕ × List Effect
unfolding after_adding
guarded k req now active =
    after_adding k req (try_add_session now k.wallet_id (codes "keygen") active)

-- From the look at the stored result on.
unfoldable pub replay_or_generate : Calls → Request → ℕ → Dict ℕ → Stored → Dict ℕ × List Effect
replay_or_generate k req now active (read_failed e) = (
  active,
  handle_keygen_session_error k req (codes "Failed to check stored wallet creation result") e,
)
replay_or_generate k req now active key_not_found = guarded k req now active
replay_or_generate k req now active (found none) = guarded k req now active
replay_or_generate k req now active (found (some payload)) =
    (active, publish_result k req payload (codes "Failed to enqueue stored wallet creation result"))

-- handleKeyGenEvent
unfoldable pub handle_keygen_event : Calls → Request → ℕ → Dict ℕ → Dict ℕ × List Effect
unfolding replay_or_generate
handle_keygen_event k req now active =
    unless k.unmarshal_error
      (λ e.
        (active, handle_keygen_session_error k req (codes "Failed to unmarshal keygen message") e))
      (unless k.verify_error
        (λ e. (
          active,
          handle_keygen_session_error k req (codes "Failed to verify initiator message") e,
        ))
        (unless k.authorize_error
          (λ e. (
            active,
            handle_keygen_session_error k req (codes "Failed to authorize initiator message") e,
          ))
          (replay_or_generate k req now active k.stored)))
