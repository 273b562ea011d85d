-- ===== src/Client/Examples.antt =====
-- The theorems on the client with the toy signature scheme.
use mpcium.Base.{◌≡◌, refl, true, some, none, [], ◌∷◌, ◌++◌, Str, codes, str_eq_refl}
use mpcium.Identity.{ed25519, authorize_initiator_message}
use mpcium.Identity.Samples.{toy, store}
use mpcium.Text.Pack.{pack}
use mpcium.Client.{
  SignTxMessage, ResharingMessage, Json, LocalSigner, Signing, keygen_message, sign_tx_message,
  resharing_message, create_wallet_with_authorizers, sign_transaction, resharing,
}
use mpcium.Client.Signed.{Marshals, Accepted, requests-Accepted, sign_transaction-any_path}

abbrev payload_text : Str → Str → Str → Str → Str → Str
payload_text key_type wallet code tx_id tx = pack key_type (pack wallet (pack code (pack tx_id tx)))

abbrev toy_json : Json
toy_json = record {
  marshal_payload =
      λ key_type wallet code tx_id tx. some (payload_text key_type wallet code tx_id tx);
  marshal_keygen = λ m. some m.wallet_id;
  marshal_sign = λ m. some m.tx;
  marshal_resharing = λ m. some m.session_id;
}

toy_json-Marshals : Marshals toy_json
toy_json-Marshals = record {
  payload = λ key_type wallet code tx_id tx. (payload_text key_type wallet code tx_id tx, refl);
  keygen = λ m. (m.wallet_id, refl);
  sign = λ m. (m.tx, refl);
  resharing = λ m. (m.session_id, refl);
}

abbrev toy_signing : Signing
toy_signing = record { ed25519_sign = λ key raw. key ++ raw; sign_with_p256 = λ key raw. none }

abbrev signer : LocalSigner
signer = record { key_type = ed25519; ed25519_key = some (codes "I"); p256_key = none }

abbrev transfer : SignTxMessage
transfer = record {
  key_type = codes "secp256k1";
  wallet_id = codes "w";
  network_internal_code = codes "eth";
  tx_id = codes "t";
  tx = codes "x";
  signature = [];
  derivation_path = [];
  authorizer_signatures = [];
}

abbrev handover : ResharingMessage
handover = record {
  session_id = codes "s";
  node_ids = codes "n1" ∷ [];
  new_threshold = 1;
  key_type = codes "secp256k1";
  wallet_id = codes "w";
  signature = [];
  authorizer_signatures = [];
}

requests-Accepted_example :
    Accepted toy store
      (codes "svc")
      (create_wallet_with_authorizers toy_json toy_signing signer (codes "svc") true (codes "w") [])
      keygen_message
      toy_json.marshal_keygen
      (λ msg. (msg.wallet_id ≡ codes "w") × (msg.authorizer_signatures ≡ []))
    × Accepted toy store
        (codes "svc")
        (sign_transaction toy_json toy_signing signer (codes "svc") true transfer)
        (sign_tx_message toy_json)
        toy_json.marshal_sign
        (λ msg. record msg { signature = [] } ≡ transfer)
    × Accepted toy store
        (codes "svc")
        (resharing toy_json toy_signing signer (codes "svc") true handover)
        (resharing_message toy_json)
        toy_json.marshal_resharing
        (λ msg. record msg { signature = [] } ≡ handover)
requests-Accepted_example =
    requests-Accepted toy toy_json toy_signing signer (codes "svc") store (codes "w") [] transfer
      handover refl (codes "I", refl, (λ raw. str_eq_refl (codes "I" ++ raw)), (λ raw. refl))
      toy_json-Marshals

sign_transaction-any_path_example :
    Accepted toy store
      (codes "svc")
      (sign_transaction toy_json toy_signing signer (codes "svc") true transfer)
      (λ msg. sign_tx_message toy_json (record msg { derivation_path = 7 ∷ [] }))
      toy_json.marshal_sign
      (λ msg.
        (msg.derivation_path ≡ [])
        × (authorize_initiator_message toy store
              (sign_tx_message toy_json (record msg { derivation_path = 7 ∷ [] }))
            ≡ authorize_initiator_message toy store (sign_tx_message toy_json msg)))
sign_transaction-any_path_example =
    sign_transaction-any_path toy toy_json toy_signing signer (codes "svc") store transfer (7 ∷ [])
      refl (codes "I", refl, (λ raw. str_eq_refl (codes "I" ++ raw)), (λ raw. refl))
      toy_json-Marshals
