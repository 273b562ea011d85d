-- ===== src/Consumer.antt =====
-- What the handlers of pkg/eventconsumer share: the requests, what they do to the outside, and the
-- table of active sessions of event_consumer.go.
pub mod Keygen
pub mod Signing
pub mod Resharing
pub mod Bridge
pub mod Authority
pub mod Cleanup
mod Examples
use mpcium.Base.{
  ℕ, ◌-◌, Bool, true, false, ltb, if◌then◌else◌, ◌≡◌, refl, Option, none, some, List, [], ◌∷◌, ◌++◌,
  Str, codes, Dict, lookup, insert, erase,
}
use mpcium.Event.{is_empty, scoped_operation_id}
use mpcium.Node.Sessions.{SessionType}

-- A message of NATS: its data (`body`), its reply subject, and the headers ClientID and SessionID, each empty
-- where it is missing.
pub record Request : Type 0 where
  pub body : Str
  pub reply : Str
  pub client_id : Str
  pub session_id : Str

-- The calls that a handler makes, in their order, whether they succeed or not: a result is enqueued
-- (subject, payload, idempotent key), a message is published, a session is initialised, or told to sign, a
-- wallet creation result is stored.
pub data Effect : Type 0 where
  enqueue : Str → Str → Str → Effect
  publish : Str → Str → Effect
  init : SessionType → Effect
  sign : SessionType → Effect
  store : Str → Str → Effect

-- `if err != nil { … return }`: what is done on an error, and the rest.
abbrev pub unless {ℓ} : {A : Type ℓ} → Option Str → (Str → A) → A → A
unless none f rest = rest
unless (some e) f rest = f e

pub unless_cases {ℓ κ} :
    {A : Type ℓ} (P : A → Type κ) (o : Option Str) (f : Str → A) (rest : A)
    → ((e : Str) → o ≡ some e → P (f e))
    → (o ≡ none → P rest)
    → P (unless o f rest)
unless_cases P none f rest h k = k refl
unless_cases P (some e) f rest h k = h e refl

-- composeIdempotentKey and buildIdempotentKey, for a format that is a prefix and `%s`.
unfoldable pub compose_idempotent_key : Str → Str → Str → Str → Str
compose_idempotent_key prefix base client_id session_id =
    let unique = if is_empty session_id then base else base ++ (b':' ∷ session_id) in
    prefix ++ scoped_operation_id client_id unique

-- sendReplyToRemoveMsg
unfoldable pub send_reply_to_remove_msg : Request → List Effect
send_reply_to_remove_msg req = if is_empty req.reply then [] else publish req.reply req.body ∷ []

-- The key of activeSessions.
unfoldable pub session_key : Str → Str → Str
session_key wallet_id tx_id = wallet_id ++ (b'-' ∷ tx_id)

-- tryAddSession: the table, with the time of creation of each session, and whether it was added.
unfoldable pub try_add_session : ℕ → Str → Str → Dict ℕ → Dict ℕ × Bool
unfolding session_key
try_add_session now wallet_id tx_id active = elim (lookup (session_key wallet_id tx_id) active) [
  | some created ↦ (active, false)
  | none ↦ (insert (session_key wallet_id tx_id) now active, true)
]

pub try_add_session_known :
    (now : ℕ) (wallet_id tx_id : Str) (active : Dict ℕ) {t : ℕ}
    → lookup (session_key wallet_id tx_id) active ≡ some t
    → try_add_session now wallet_id tx_id active ≡ (active, false)
unfolding try_add_session
try_add_session_known now wallet_id tx_id active h = rw (try_add_session, h) refl

pub try_add_session_new :
    (now : ℕ) (wallet_id tx_id : Str) (active : Dict ℕ)
    → lookup (session_key wallet_id tx_id) active ≡ none
    → try_add_session now wallet_id tx_id active
      ≡ (insert (session_key wallet_id tx_id) now active, true)
unfolding try_add_session
try_add_session_new now wallet_id tx_id active h = rw (try_add_session, h) refl

-- removeSession
unfoldable pub remove_session : Str → Str → Dict ℕ → Dict ℕ
unfolding session_key
remove_session wallet_id tx_id active = erase (session_key wallet_id tx_id) active

-- cleanupStaleSessions: the sessions older than the timeout are deleted. Times are monotonic.
unfoldable pub cleanup_stale_sessions : ℕ → ℕ → Dict ℕ → Dict ℕ
cleanup_stale_sessions now timeout [] = []
cleanup_stale_sessions now timeout ((key, created) ∷ active) =
    let rest = cleanup_stale_sessions now timeout active in
    if ltb timeout (now - created) then rest else (key, created) ∷ rest
