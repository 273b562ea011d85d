-- ===== src/Identity/Authorization.antt =====
-- What AuthorizeInitiatorMessage and VerifyInitiatorMessage of pkg/identity/identity.go ensure.
use mpcium.Base.{
  ◌≡◌, refl, sym, ap, ◌∙◌, Bool, true, false, not, Bool-cases, Option, none, some, List, [], ◌∷◌,
  Str, str_eq, str_eq_iff, Dict, lookup, insert, lookup-insert, ok, bind_ok, fail_if, fail_if_ok,
  All, arith, inl, inr,
}
use mpcium.Event.{is_empty}
use mpcium.Identity.{
  Crypto, Algorithm, ed25519, p256, unknown, PublicKey, ed25519_key, p256_key, Error,
  AuthorizerSignature, InitiatorMessage, Store, require, verify_ed25519, verify_p256,
  verify_initiator_message, verify_by, compose_authorizer_raw, verify_with,
  verify_authorizer_signature, provided_signatures, check_required, verify_all, verify_signatures,
  authorize_initiator_message, raw_failed, empty_signature, key_not_set, missing_authorizer,
  authorizer_not_cached,
}

-- The signature is one of the bytes by a key.
abbrev pub Valid : Crypto → Str → Str → PublicKey → Type 0
Valid c raw signature (ed25519_key key) = c.ed25519_verify key raw signature ≡ true
Valid c raw signature (p256_key key) = c.p256_verify key raw signature ≡ true

-- The signature is one of the composed bytes of the message by the cached key of its authorizer.
abbrev pub Signs : Crypto → Store → InitiatorMessage → AuthorizerSignature → Type 0
Signs c s msg sig =
    (raw : Str) × (key : PublicKey) × (compose_authorizer_raw c msg ≡ ok raw)
    × (lookup sig.authorizer_id s.cached_authorizer_keys ≡ some key)
    × Valid c raw sig.signature key

pub require_ok {ℓ} :
    {A : Type ℓ} (o : Option A) (e : Error) {a : A} → require o e ≡ ok a → o ≡ some a
require_ok none e h = cc
require_ok (some a) e h = ground arith

pub unnegate : (b : Bool) → not b ≡ false → b ≡ true
unnegate true h = refl
unnegate false h = cc

verify_with-Valid :
    (c : Crypto) (raw : Str) (sig : AuthorizerSignature) (algorithm : Option Algorithm)
    (key : PublicKey) {x : Unit {0}}
    → verify_with c raw sig algorithm key ≡ ok x
    → Valid c raw sig.signature key
unfolding verify_with
verify_with-Valid c raw sig (some ed25519) (ed25519_key key) h = unnegate _ (fail_if_ok _ _ h)
verify_with-Valid c raw sig (some ed25519) (p256_key key) h = cc
verify_with-Valid c raw sig (some p256) (p256_key key) h = unnegate _ (fail_if_ok _ _ h)
verify_with-Valid c raw sig (some p256) (ed25519_key key) h = cc
verify_with-Valid c raw sig (some (unknown a)) key h = cc
verify_with-Valid c raw sig none key h = cc

verify_all-Signs :
    (c : Crypto) (s : Store) (msg : InitiatorMessage) (raw : Str) (sigs : List AuthorizerSignature)
    {x : Unit {0}}
    → compose_authorizer_raw c msg ≡ ok raw
    → verify_all c s raw sigs ≡ ok x
    → All (Signs c s msg) sigs
unfolding verify_all verify_authorizer_signature
verify_all-Signs c s msg raw [] e h = tt
verify_all-Signs c s msg raw (sig ∷ sigs) e h =
    let (_, first, rest) = bind_ok (verify_authorizer_signature c s raw sig) _ h in
    let (key, cached, valid) =
      bind_ok
        (require (lookup sig.authorizer_id s.cached_authorizer_keys)
          (authorizer_not_cached sig.authorizer_id))
        _ first in
    (
      (raw, key, e, require_ok _ _ cached, verify_with-Valid c raw sig _ key valid),
      verify_all-Signs c s msg raw sigs e rest,
    )

verify_signatures-Signs :
    (c : Crypto) (s : Store) (msg : InitiatorMessage) (sigs : List AuthorizerSignature)
    {x : Unit {0}}
    → verify_signatures c s msg sigs ≡ ok x
    → All (Signs c s msg) sigs
unfolding verify_signatures
verify_signatures-Signs c s msg [] h = tt
verify_signatures-Signs c s msg (sig ∷ sigs) h =
    let (raw, e, verified) = bind_ok (compose_authorizer_raw c msg) _ h in
    verify_all-Signs c s msg raw (sig ∷ sigs) e verified

-- What holds of all signatures holds of those that the map has, each under its own authorizer.
lookup-provided {ℓ} :
    (P : AuthorizerSignature → Type ℓ) (id : Str) (sig : AuthorizerSignature)
    (sigs : List AuthorizerSignature) (provided : Dict AuthorizerSignature)
    → All P sigs
    → (lookup id provided ≡ some sig → (sig.authorizer_id ≡ id) × P sig)
    → lookup id (provided_signatures sigs provided) ≡ some sig
    → (sig.authorizer_id ≡ id) × P sig
unfolding provided_signatures
lookup-provided P id sig [] provided all known h = known h
lookup-provided P id sig (first ∷ sigs) provided all known h =
    lookup-provided P id sig sigs (insert first.authorizer_id first provided) all.1
      (λ found. elim (Bool-cases (str_eq first.authorizer_id id)) [
        | inl e ↦
            let same : first ≡ sig =
              ground
                (arith, rw (lookup-insert first.authorizer_id id first provided, e) at found) in
            (
              ap (λ (x : AuthorizerSignature). x.authorizer_id) (sym same) ∙ (str_eq_iff _ _).0 e,
              rw (← same) all.0,
            )
        | inr e ↦ known (rw (lookup-insert first.authorizer_id id first provided, e) at found)
      ])
      h

check_required-Signs :
    (c : Crypto) (s : Store) (msg : InitiatorMessage) (ids : List Str) {x : Unit {0}}
    → All (Signs c s msg) msg.authorizer_signatures
    → check_required (provided_signatures msg.authorizer_signatures []) ids ≡ ok x
    → All (λ id. (sig : AuthorizerSignature) × (sig.authorizer_id ≡ id) × Signs c s msg sig) ids
unfolding check_required lookup
check_required-Signs c s msg [] all h = tt
check_required-Signs c s msg (id ∷ ids) all h =
    let provided = provided_signatures msg.authorizer_signatures [] in
    let (sig, first, rest) = bind_ok (require (lookup id provided) (missing_authorizer id)) _ h in
    let (same, signs) =
      lookup-provided (Signs c s msg) id sig msg.authorizer_signatures [] all (λ e. cc)
        (require_ok _ _ first) in
    ((sig, same, signs), check_required-Signs c s msg ids all rest)

-- Where authorization is enabled, a message is only authorized if every signature that it carries,
-- and for every required authorizer one under that authorizer's id, is a valid signature of the
-- composed bytes of this message by the cached key of its authorizer.
pub authorize_initiator_message-Signs :
    (c : Crypto) (s : Store) (msg : InitiatorMessage)
    → s.auth_enabled ≡ true
    → authorize_initiator_message c s msg ≡ ok tt
    → All (Signs c s msg) msg.authorizer_signatures
      × All
          (λ id. (sig : AuthorizerSignature) × (sig.authorizer_id ≡ id) × Signs c s msg sig)
          s.required_authorizers
unfolding authorize_initiator_message
authorize_initiator_message-Signs c s msg e h =
    let (_, complete, verified) =
      bind_ok
        (check_required (provided_signatures msg.authorizer_signatures []) s.required_authorizers) _
        (rw (authorize_initiator_message, e) at h) in
    let all = verify_signatures-Signs c s msg msg.authorizer_signatures verified in
    (all, check_required-Signs c s msg s.required_authorizers all complete)

-- The signature of the initiator, by the algorithm that is configured.
abbrev pub InitiatorSigns : Crypto → Store → InitiatorMessage → Algorithm → Type 0
InitiatorSigns c s msg ed25519 =
    (raw : Str) × (msg.raw ≡ some raw) × (c.ed25519_verify s.initiator_ed25519 raw msg.sig ≡ true)
InitiatorSigns c s msg p256 =
    (raw : Str) × (key : Str) × (msg.raw ≡ some raw)
    × (s.initiator_p256 ≡ some key)
    × (c.p256_verify key raw msg.sig ≡ true)
InitiatorSigns c s msg (unknown a) = ⊥

verify_by-InitiatorSigns :
    (c : Crypto) (s : Store) (msg : InitiatorMessage) (algorithm : Algorithm) {x : Unit {0}}
    → verify_by c s msg algorithm ≡ ok x
    → InitiatorSigns c s msg algorithm
unfolding verify_by verify_ed25519 verify_p256
verify_by-InitiatorSigns c s msg ed25519 h =
    let (raw, r, h1) = bind_ok (require msg.raw raw_failed) _ h in
    let (_, _, h2) = bind_ok (fail_if (is_empty msg.sig) empty_signature) _ h1 in
    (raw, require_ok _ _ r, unnegate _ (fail_if_ok _ _ h2))
verify_by-InitiatorSigns c s msg p256 h =
    let (raw, r, h1) = bind_ok (require msg.raw raw_failed) _ h in
    let (key, k, h2) = bind_ok (require s.initiator_p256 key_not_set) _ h1 in
    (raw, key, require_ok _ _ r, require_ok _ _ k, unnegate _ (fail_if_ok _ _ h2))
verify_by-InitiatorSigns c s msg (unknown a) h = cc

-- A message of an initiator is only accepted if its signature is a valid one of its raw bytes by the
-- initiator's key of the configured algorithm.
pub verify_initiator_message-InitiatorSigns :
    (c : Crypto) (s : Store) (msg : InitiatorMessage)
    → verify_initiator_message c s msg ≡ ok tt
    → InitiatorSigns c s msg s.initiator_algorithm
unfolding verify_initiator_message
verify_initiator_message-InitiatorSigns c s msg h =
    verify_by-InitiatorSigns c s msg s.initiator_algorithm h
