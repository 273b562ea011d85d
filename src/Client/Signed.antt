-- ===== src/Client/Signed.antt =====
-- What the client signs: that a node accepts it, and what of a request the signature is about.
use mpcium.Base.{
  ℕ, ◌≡◌, refl, ap, ◌∙◌, true, false, Option, some, List, [], Str, codes, Outcome, ok,
}
use mpcium.Event.{is_empty}
use mpcium.Identity.{
  Crypto, Store, AuthorizerSignature, InitiatorMessage, Algorithm, ed25519, p256, unknown,
  verify_initiator_message, authorize_initiator_message,
}
use mpcium.Client.{
  GenerateKeyMessage, SignTxMessage, ResharingMessage, Json, LocalSigner, Signing, Failure,
  Published, keygen_message, sign_tx_raw, sign_tx_message, resharing_raw, resharing_message, sign,
  sign_by, create_wallet_with_authorizers, sign_transaction, resharing, request_headers,
}

-- The signer holds a private key of its type, and the store of the node the public key: what is signed
-- with the one is verified with the other.
abbrev pub KeyMatches : Crypto → Signing → LocalSigner → Store → Algorithm → Type 0
KeyMatches c g s st ed25519 =
    (key : Str) × (s.ed25519_key ≡ some key)
    × ((raw : Str) → c.ed25519_verify st.initiator_ed25519 raw (g.ed25519_sign key raw) ≡ true)
    × ((raw : Str) → is_empty (g.ed25519_sign key raw) ≡ false)
KeyMatches c g s st p256 =
    (key : Str) × (public : Str) × (s.p256_key ≡ some key)
    × (st.initiator_p256 ≡ some public)
    × ((raw : Str)
        → (sig : Str) × (g.sign_with_p256 key raw ≡ some sig)
          × (c.p256_verify public raw sig ≡ true))
KeyMatches c g s st (unknown a) = ⊥

-- encoding/json takes the messages.
pub record Marshals (j : Json) : Type 0 where
  pub payload :
      (key_type wallet code tx_id tx : Str)
      → (t : Str) × (j.marshal_payload key_type wallet code tx_id tx ≡ some t)
  pub keygen : (m : GenerateKeyMessage) → (t : Str) × (j.marshal_keygen m ≡ some t)
  pub sign : (m : SignTxMessage) → (t : Str) × (j.marshal_sign m ≡ some t)
  pub resharing : (m : ResharingMessage) → (t : Str) × (j.marshal_resharing m ≡ some t)

-- A signature that the node takes for the text.
abbrev pub Verifies : Crypto → Store → Str → Str → Type 0
Verifies c st raw sig =
    (msg : InitiatorMessage)
    → msg.raw ≡ some raw
    → msg.sig ≡ sig
    → verify_initiator_message c st msg ≡ ok tt

module _ (c : Crypto) (g : Signing) (s : LocalSigner) (st : Store) where
  sign_by-Verifies :
      (a : Algorithm)
      → st.initiator_algorithm ≡ a
      → KeyMatches c g s st a
      → (raw : Str) → (sig : Str) × (sign_by g s a raw ≡ ok sig) × Verifies c st raw sig
  unfolding sign_by verify_initiator_message
  sign_by-Verifies ed25519 alg (key, held, verifies, nonempty) raw = (
    g.ed25519_sign key raw,
    rw held refl,
    λ msg r q. rw (alg, r, q, nonempty raw, verifies raw) refl,
  )
  sign_by-Verifies p256 alg (key, public, held, known, signs) raw =
      let (sig, made, verified) = signs raw in
      (sig, rw (held, made) refl, λ msg r q. rw (alg, r, q, known, verified) refl)
  sign_by-Verifies (unknown a) alg k raw = absurd k

-- A request is published with a message that the node accepts: the text of the message under the client's
-- headers, and of the message what is stated of it.
pub record Accepted {ℓ} {M : Type ℓ} (c : Crypto) (st : Store) (client_id : Str)
    (r : Outcome Failure (M × Published)) (view : M → InitiatorMessage) (marshal : M → Option Str)
    (P : M → Type 0) : Type ℓ where
  pub message : M
  pub published : Published
  pub sent : r ≡ ok (message, published)
  pub body : marshal message ≡ some published.body
  pub headers : published.headers ≡ request_headers client_id
  pub verified : verify_initiator_message c st (view message) ≡ ok tt
  pub same : P message

module _ (c : Crypto) (j : Json) (g : Signing) (s : LocalSigner) (client_id : Str) (st : Store)
    (alg : s.key_type ≡ st.initiator_algorithm) (k : KeyMatches c g s st st.initiator_algorithm)
    (m : Marshals j) where
  sign-Verifies : (raw : Str) → (sig : Str) × (sign g s raw ≡ ok sig) × Verifies c st raw sig
  unfolding sign
  sign-Verifies raw =
      let (sig, made, v) = sign_by-Verifies c g s st st.initiator_algorithm refl k raw in
      (sig, ap (λ a. sign_by g s a raw) alg ∙ made, v)

  create_wallet-Accepted :
      (wallet_id : Str) (signatures : List AuthorizerSignature)
      → Accepted c st client_id
          (create_wallet_with_authorizers j g s client_id true wallet_id signatures)
          keygen_message
          j.marshal_keygen
          (λ msg. (msg.wallet_id ≡ wallet_id) × (msg.authorizer_signatures ≡ signatures))
  unfolding create_wallet_with_authorizers
  create_wallet-Accepted wallet_id signatures =
      let (sig, made, verifies) = sign-Verifies wallet_id in
      let msg : GenerateKeyMessage = record {
        wallet_id = wallet_id;
        signature = sig;
        authorizer_signatures = signatures;
      } in
      let (text, marshalled) = m.keygen msg in
      record {
        message = msg;
        published = record {
          subject = codes "mpc.keygen_request.*";
          body = text;
          headers = request_headers client_id;
        };
        sent = rw (create_wallet_with_authorizers, made, marshalled) refl;
        body = marshalled;
        headers = refl;
        verified = verifies (keygen_message msg) refl refl;
        same = (refl, refl);
      }

  sign_transaction-Accepted :
      (tx : SignTxMessage)
      → Accepted c st client_id
          (sign_transaction j g s client_id true tx)
          (sign_tx_message j)
          j.marshal_sign
          (λ msg. record msg { signature = tx.signature } ≡ tx)
  unfolding sign_transaction sign_tx_message sign_tx_raw
  sign_transaction-Accepted tx =
      let (raw, payload) =
        m.payload tx.key_type tx.wallet_id tx.network_internal_code tx.tx_id tx.tx in
      let (sig, made, verifies) = sign-Verifies raw in
      let msg : SignTxMessage = record tx { signature = sig } in
      let (text, marshalled) = m.sign msg in
      record {
        message = msg;
        published = record {
          subject = codes "mpc.signing_request.*";
          body = text;
          headers = request_headers client_id;
        };
        sent = rw (sign_transaction, payload, made, marshalled) refl;
        body = marshalled;
        headers = refl;
        verified = verifies (sign_tx_message j msg) payload refl;
        same = refl;
      }

  resharing-Accepted :
      (r : ResharingMessage)
      → Accepted c st client_id
          (resharing j g s client_id true r)
          (resharing_message j)
          j.marshal_resharing
          (λ msg. record msg { signature = r.signature } ≡ r)
  unfolding resharing resharing_message resharing_raw
  resharing-Accepted r =
      let (raw, payload) = m.resharing (record r { signature = []; authorizer_signatures = [] }) in
      let (sig, made, verifies) = sign-Verifies raw in
      let msg : ResharingMessage = record r { signature = sig } in
      let (text, marshalled) = m.resharing msg in
      record {
        message = msg;
        published = record {
          subject = codes "mpc:reshare";
          body = text;
          headers = request_headers client_id;
        };
        sent = rw (resharing, payload, made, marshalled) refl;
        body = marshalled;
        headers = refl;
        verified = verifies (resharing_message j msg) payload refl;
        same = refl;
      }

-- With matching keys, and while encoding/json and the broker take the messages, each of the three
-- requests of the client is published, unchanged but for the signature, and VerifyInitiatorMessage of
-- the node accepts it.
pub requests-Accepted :
    (c : Crypto) (j : Json) (g : Signing) (s : LocalSigner) (client_id : Str) (st : Store)
    (wallet_id : Str) (signatures : List AuthorizerSignature) (tx : SignTxMessage)
    (r : ResharingMessage)
    → s.key_type ≡ st.initiator_algorithm
    → KeyMatches c g s st st.initiator_algorithm
    → Marshals j
    → Accepted c st client_id
        (create_wallet_with_authorizers j g s client_id true wallet_id signatures)
        keygen_message
        j.marshal_keygen
        (λ msg. (msg.wallet_id ≡ wallet_id) × (msg.authorizer_signatures ≡ signatures))
      × Accepted c st client_id
          (sign_transaction j g s client_id true tx)
          (sign_tx_message j)
          j.marshal_sign
          (λ msg. record msg { signature = tx.signature } ≡ tx)
      × Accepted c st client_id
          (resharing j g s client_id true r)
          (resharing_message j)
          j.marshal_resharing
          (λ msg. record msg { signature = r.signature } ≡ r)
requests-Accepted c j g s client_id st wallet_id signatures tx r alg k m = (
  create_wallet-Accepted c j g s client_id st alg k m wallet_id signatures,
  sign_transaction-Accepted c j g s client_id st alg k m tx,
  resharing-Accepted c j g s client_id st alg k m r,
)

verify-path :
    (c : Crypto) (j : Json) (st : Store) (m : SignTxMessage) (path : List ℕ)
    → verify_initiator_message c st (sign_tx_message j (record m { derivation_path = path }))
      ≡ verify_initiator_message c st (sign_tx_message j m)
unfolding sign_tx_message sign_tx_raw
verify-path c j st m path = refl

-- With matching keys, and while encoding/json and the broker take the message: SignTransaction publishes the
-- request with its derivation path, and with any other path in its place VerifyInitiatorMessage of the node
-- accepts the request too, and AuthorizeInitiatorMessage answers as for the one that was published.
pub sign_transaction-any_path :
    (c : Crypto) (j : Json) (g : Signing) (s : LocalSigner) (client_id : Str) (st : Store)
    (tx : SignTxMessage) (path : List ℕ)
    → s.key_type ≡ st.initiator_algorithm
    → KeyMatches c g s st st.initiator_algorithm
    → Marshals j
    → Accepted c st client_id
        (sign_transaction j g s client_id true tx)
        (λ msg. sign_tx_message j (record msg { derivation_path = path }))
        j.marshal_sign
        (λ msg.
          (msg.derivation_path ≡ tx.derivation_path)
          × (authorize_initiator_message c st
                (sign_tx_message j (record msg { derivation_path = path }))
              ≡ authorize_initiator_message c st (sign_tx_message j msg)))
unfolding sign_tx_message sign_tx_raw
sign_transaction-any_path c j g s client_id st tx path alg k m =
    let a = sign_transaction-Accepted c j g s client_id st alg k m tx in
    record {
      message = a.message;
      published = a.published;
      sent = a.sent;
      body = a.body;
      headers = a.headers;
      verified = verify-path c j st a.message path ∙ a.verified;
      same = (ap (λ (t : SignTxMessage). t.derivation_path) a.same, refl);
    }
