-- ===== src/Client.antt =====
-- The client library: the messages of pkg/types/initiator_msg.go, Sign of pkg/client/local_signer.go, and the
-- requests and callbacks of pkg/client/client.go.
pub mod Signed
mod Examples
use mpcium.Base.{
  ℕ, Bool, true, false, not, ◌||◌, if◌then◌else◌, ◌==◌, Option, none, some, List, [], ◌∷◌, ◌++◌,
  Str, codes, Outcome, ok, err, ◌>>=◌, fail_if,
}
use mpcium.Event.{is_empty}
use mpcium.Identity.{AuthorizerSignature, InitiatorMessage, Algorithm, ed25519, p256, unknown}
use mpcium.Text.Split.{trim_space}

-- GenerateKeyMessage
pub record GenerateKeyMessage : Type 0 where
  pub wallet_id : Str
  pub signature : Str
  pub authorizer_signatures : List AuthorizerSignature

-- SignTxMessage
pub record SignTxMessage : Type 0 where
  pub key_type : Str
  pub wallet_id : Str
  pub network_internal_code : Str
  pub tx_id : Str
  pub tx : Str
  pub signature : Str
  pub derivation_path : List ℕ
  pub authorizer_signatures : List AuthorizerSignature

-- ResharingMessage
pub record ResharingMessage : Type 0 where
  pub session_id : Str
  pub node_ids : List Str
  pub new_threshold : ℕ
  pub key_type : Str
  pub wallet_id : Str
  pub signature : Str
  pub authorizer_signatures : List AuthorizerSignature

-- encoding/json on the struct that Raw of a SignTxMessage makes and on a ResharingMessage, and on the three
-- messages; json.Marshal may give an error.
pub record Json : Type 0 where
  pub marshal_payload : Str → Str → Str → Str → Str → Option Str
  pub marshal_keygen : GenerateKeyMessage → Option Str
  pub marshal_sign : SignTxMessage → Option Str
  pub marshal_resharing : ResharingMessage → Option Str

-- The methods of types.InitiatorMessage on the three messages.
unfoldable pub keygen_message : GenerateKeyMessage → InitiatorMessage
keygen_message m = record {
  raw = some m.wallet_id;
  sig = m.signature;
  initiator_id = m.wallet_id;
  authorizer_signatures = m.authorizer_signatures;
}

unfoldable pub sign_tx_raw : Json → SignTxMessage → Option Str
sign_tx_raw j m = j.marshal_payload m.key_type m.wallet_id m.network_internal_code m.tx_id m.tx

unfoldable pub sign_tx_message : Json → SignTxMessage → InitiatorMessage
unfolding sign_tx_raw
sign_tx_message j m = record {
  raw = sign_tx_raw j m;
  sig = m.signature;
  initiator_id = m.tx_id;
  authorizer_signatures = m.authorizer_signatures;
}

unfoldable pub resharing_raw : Json → ResharingMessage → Option Str
resharing_raw j m = j.marshal_resharing (record m { signature = []; authorizer_signatures = [] })

unfoldable pub resharing_message : Json → ResharingMessage → InitiatorMessage
unfolding resharing_raw
resharing_message j m = record {
  raw = resharing_raw j m;
  sig = m.signature;
  initiator_id = m.wallet_id;
  authorizer_signatures = m.authorizer_signatures;
}

-- LocalSigner, and what signs for it: ed25519.Sign, and SignWithP256, which may give an error.
pub record LocalSigner : Type 0 where
  pub key_type : Algorithm
  pub ed25519_key : Option Str
  pub p256_key : Option Str

pub record Signing : Type 0 where
  pub ed25519_sign : Str → Str → Str
  pub sign_with_p256 : Str → Str → Option Str

pub data Failure : Type 0 where
  raw_failed no_ed25519_key no_p256_key p256_failed unsupported_key_type marshal_failed
        publish_failed blank_client_id bad_client_id :
      Failure

abbrev pub require {ℓ} : {A : Type ℓ} → Option A → Failure → Outcome Failure A
require none e = err e
require (some a) e = ok a

-- The switch of Sign.
unfoldable pub sign_by : Signing → LocalSigner → Algorithm → Str → Outcome Failure Str
sign_by g s ed25519 data_bytes =
    require s.ed25519_key no_ed25519_key >>= λ key. ok (g.ed25519_sign key data_bytes)
sign_by g s p256 data_bytes =
    require s.p256_key no_p256_key >>= λ key. require (g.sign_with_p256 key data_bytes) p256_failed
sign_by g s (unknown a) data_bytes = err unsupported_key_type

-- Sign
unfoldable pub sign : Signing → LocalSigner → Str → Outcome Failure Str
unfolding sign_by
sign g s data_bytes = sign_by g s s.key_type data_bytes

-- A message that is published: the subject, the text and the headers.
pub record Published : Type 0 where
  pub subject : Str
  pub body : Str
  pub headers : List (Str × Str)

-- requestHeaders
unfoldable pub request_headers : Str → List (Str × Str)
request_headers client_id = if is_empty client_id then [] else (codes "ClientID", client_id) ∷ []

module _ (j : Json) (g : Signing) (s : LocalSigner) (client_id : Str) where
  -- A marshalled message, published if the broker takes it.
  abbrev pub publish : Bool → Str → Option Str → Outcome Failure Published
  publish takes subject text = do
    body ← require text marshal_failed
    published ← fail_if (not takes) publish_failed
    ok (record { subject = subject; body = body; headers = request_headers client_id })

  -- CreateWalletWithAuthorizers, with the message that is published.
  unfoldable pub create_wallet_with_authorizers :
      Bool → Str → List AuthorizerSignature → Outcome Failure (GenerateKeyMessage × Published)
  unfolding keygen_message sign request_headers
  create_wallet_with_authorizers takes wallet_id signatures = do
    let unsigned : GenerateKeyMessage = record {
      wallet_id = wallet_id;
      signature = [];
      authorizer_signatures = signatures;
    }
    raw ← require ((keygen_message unsigned).raw) raw_failed
    signature ← sign g s raw
    let msg : GenerateKeyMessage = record unsigned { signature = signature }
    published ← publish takes (codes "mpc.keygen_request.*") (j.marshal_keygen msg)
    ok (msg, published)

  -- SignTransaction
  unfoldable pub sign_transaction :
      Bool → SignTxMessage → Outcome Failure (SignTxMessage × Published)
  unfolding sign_tx_message sign request_headers
  sign_transaction takes unsigned = do
    raw ← require ((sign_tx_message j unsigned).raw) raw_failed
    signature ← sign g s raw
    let msg : SignTxMessage = record unsigned { signature = signature }
    published ← publish takes (codes "mpc.signing_request.*") (j.marshal_sign msg)
    ok (msg, published)

  -- Resharing
  unfoldable pub resharing :
      Bool → ResharingMessage → Outcome Failure (ResharingMessage × Published)
  unfolding resharing_message sign request_headers
  resharing takes unsigned = do
    raw ← require ((resharing_message j unsigned).raw) raw_failed
    signature ← sign g s raw
    let msg : ResharingMessage = record unsigned { signature = signature }
    published ← publish takes (codes "mpc:reshare") (j.marshal_resharing msg)
    ok (msg, published)
