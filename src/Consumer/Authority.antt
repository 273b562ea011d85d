-- ===== src/Consumer/Authority.antt =====
-- The handlers of pkg/eventconsumer/event_consumer.go together with the checks of
-- pkg/identity/identity.go that they call: on whose authority sessions are started.
use mpcium.Base.{ℕ, ◌≡◌, refl, sym, ◌∙◌, true, Option, none, some, Str, Dict, Outcome, ok, err, All}
use mpcium.Registry.{are_peers_ready}
use mpcium.Identity
use mpcium.Identity.{
  Crypto, Store, InitiatorMessage, AuthorizerSignature, verify_initiator_message,
  authorize_initiator_message,
}
use mpcium.Identity.Authorization.{
  Signs, InitiatorSigns, verify_initiator_message-InitiatorSigns, authorize_initiator_message-Signs,
}
use mpcium.Consumer.{Request}
use mpcium.Consumer.Keygen
use mpcium.Consumer.Keygen.Checks.{any, is_init, handle_keygen_event-Checked}
use mpcium.Consumer.Signing
use mpcium.Consumer.Signing.Sessions.{handle_signing_event-inits}
use mpcium.Consumer.Resharing
use mpcium.Consumer.Resharing.Sessions.{handle_reshare_event-Started}

-- The text of the error of a check, or nil.
abbrev pub error_of : (Identity.Error → Str) → Outcome Identity.Error (Unit {0}) → Option Str
error_of text (ok x) = none
error_of text (err e) = some (text e)

-- The two checks of the identity store give the two errors.
abbrev pub ChecksGive :
    Crypto → Store → InitiatorMessage → (Identity.Error → Str) → Option Str → Option Str → Type 0
ChecksGive c s msg text verify_error authorize_error =
    (verify_error ≡ error_of text (verify_initiator_message c s msg))
    × (authorize_error ≡ error_of text (authorize_initiator_message c s msg))

-- The initiator has signed the message, and every required authorizer has signed it.
abbrev pub HasAuthority : Crypto → Store → InitiatorMessage → Type 0
HasAuthority c s msg =
    InitiatorSigns c s msg s.initiator_algorithm
    × All (λ id. (sig : AuthorizerSignature) × (sig.authorizer_id ≡ id) × Signs c s msg sig)
        s.required_authorizers

no_error :
    (text : Identity.Error → Str) (r : Outcome Identity.Error (Unit {0}))
    → error_of text r ≡ none
    → r ≡ ok tt
no_error text (ok x) h = refl
no_error text (err e) h = cc

authority :
    (c : Crypto) (s : Store) (msg : InitiatorMessage) (text : Identity.Error → Str)
    (v a : Option Str)
    → s.auth_enabled ≡ true
    → ChecksGive c s msg text v a
    → v ≡ none
    → a ≡ none
    → HasAuthority c s msg
authority c s msg text v a enabled given ev ea = (
  verify_initiator_message-InitiatorSigns c s msg (no_error text _ (sym given.0 ∙ ev)),
  (authorize_initiator_message-Signs c s msg enabled (no_error text _ (sym given.1 ∙ ea))).1,
)

-- With authorization enabled and the errors of the identity store's checks, the key generation
-- handler starts sessions only for a message that the initiator and every required authorizer have
-- signed, and only while all peers are ready.
pub handle_keygen_event-HasAuthority :
    (c : Crypto) (s : Store) (msg : InitiatorMessage) (text : Identity.Error → Str)
    (k : Keygen.Calls) (req : Request) (now : ℕ) (active : Dict ℕ)
    → s.auth_enabled ≡ true
    → ChecksGive c s msg text k.verify_error k.authorize_error
    → any is_init (Keygen.handle_keygen_event k req now active).1 ≡ true
    → HasAuthority c s msg × (are_peers_ready k.node.peer_registry ≡ true)
handle_keygen_event-HasAuthority c s msg text k req now active enabled given h =
    let (checked, ready) = handle_keygen_event-Checked k req now active h in
    (
      authority c s msg text k.verify_error k.authorize_error enabled given checked.verified
          checked.authorized,
      ready,
    )

-- With authorization enabled and the errors of the identity store's checks, the signing handler
-- starts a session only for a message that the initiator and every required authorizer have signed.
pub handle_signing_event-HasAuthority :
    (c : Crypto) (s : Store) (msg : InitiatorMessage) (text : Identity.Error → Str)
    (k : Signing.Calls) (req : Request) (now : ℕ) (active : Dict ℕ)
    → s.auth_enabled ≡ true
    → ChecksGive c s msg text k.verify_error k.authorize_error
    → any is_init (Signing.handle_signing_event k req now active).1 ≡ true
    → HasAuthority c s msg
handle_signing_event-HasAuthority c s msg text k req now active enabled given h =
    let (accepted, _) = handle_signing_event-inits k req now active h in
    authority c s msg text k.verify_error k.authorize_error enabled given accepted.verified
      accepted.authorized

-- With authorization enabled and the errors of the identity store's checks, the resharing handler
-- starts sessions only for a message that the initiator and every required authorizer have signed.
handle_reshare_event-HasAuthority :
    (c : Crypto) (s : Store) (msg : InitiatorMessage) (text : Identity.Error → Str)
    (k : Resharing.Calls) (req : Request)
    → s.auth_enabled ≡ true
    → ChecksGive c s msg text k.verify_error k.authorize_error
    → any is_init (Resharing.handle_reshare_event k req) ≡ true
    → HasAuthority c s msg
handle_reshare_event-HasAuthority c s msg text k req enabled given h =
    let started = handle_reshare_event-Started k req h in
    authority c s msg text k.verify_error k.authorize_error enabled given started.verified
      started.authorized
