-- ===== src/Session/Signatures.antt =====
-- The end of Sign in pkg/mpc/ecdsa_signing_session.go and pkg/mpc/eddsa_signing_session.go: a finished
-- signature is verified, then reported.
use mpcium.Base.{
  ◌≡◌, refl, Bool, true, not, Bool-cases, inl, inr, if◌then◌else◌, Option, none, some, Option-cases,
  List, [], ◌∷◌, Str, All,
}
use mpcium.Session.Topics.{Curve, ecdsa, eddsa}

-- common.SignatureData
pub record SignatureData : Type 0 where
  pub r : Str
  pub s : Str
  pub signature_recovery : Str
  pub signature : Str

-- event.SigningResultEvent of a success; a field that is not set is empty.
pub record SigningResult : Type 0 where
  pub network_internal_code : Str
  pub wallet_id : Str
  pub tx_id : Str
  pub r : Str
  pub s : Str
  pub signature_recovery : Str
  pub signature : Str

-- The libraries: Verify of crypto/ecdsa and of edwards with the public key of the save data, on the
-- bytes of the transaction, r and s; and encoding/json on the result.
pub record Library {ℓ} (D : Type ℓ) : Type ℓ where
  pub verify_ecdsa : D → Str → Str → Str → Bool
  pub verify_eddsa : D → Str → Str → Str → Bool
  pub marshal_result : SigningResult → Option Str

-- The fields of the signing sessions that Sign reads at its end.
pub record SigningSession {ℓ} (D : Type ℓ) : Type ℓ where
  pub wallet_id : Str
  pub tx_id : Str
  pub network_internal_code : Str
  pub result_topic : Str
  pub idempotent_key : Str
  pub data_of_key : D
  pub tx : Str

pub data Failure : Type 0 where
  signature_invalid marshal_failed enqueue_failed : Failure

-- The calls that Sign makes at its end; `enqueue` has the topic, the result and the idempotency key.
pub data Effect : Type 0 where
  send_err : Failure → Effect
  enqueue : Str → Str → Str → Effect
  close : Effect
  on_success : Str → Effect

module _ {ℓ} {D : Type ℓ} (lib : Library D) where
  -- The event that the ECDSA session reports, and the one that the EdDSA session does.
  unfoldable pub ecdsa_result : SigningSession D → SignatureData → SigningResult
  ecdsa_result s sig = record {
    network_internal_code = s.network_internal_code;
    wallet_id = s.wallet_id;
    tx_id = s.tx_id;
    r = sig.r;
    s = sig.s;
    signature_recovery = sig.signature_recovery;
    signature = [];
  }

  unfoldable pub eddsa_result : SigningSession D → SignatureData → SigningResult
  eddsa_result s sig = record {
    network_internal_code = s.network_internal_code;
    wallet_id = s.wallet_id;
    tx_id = s.tx_id;
    r = [];
    s = [];
    signature_recovery = [];
    signature = sig.signature;
  }

  -- From the marshalling of the result on, where enqueueing succeeds or not.
  unfoldable pub report_result : Bool → SigningSession D → SigningResult → List Effect
  report_result enqueues s result = elim (lib.marshal_result result) [
    | none ↦ send_err marshal_failed ∷ []
    | some bytes ↦
        enqueue s.result_topic bytes s.idempotent_key
        ∷ (if enqueues then close ∷ (on_success bytes ∷ []) else send_err enqueue_failed ∷ [])
  ]

  -- The case of endCh in Sign of the ECDSA session.
  unfoldable pub ecdsa_sign_end : Bool → SigningSession D → SignatureData → List Effect
  unfolding ecdsa_result report_result
  ecdsa_sign_end enqueues s sig =
      if not (lib.verify_ecdsa s.data_of_key s.tx sig.r sig.s)
      then send_err signature_invalid ∷ []
      else report_result enqueues s (ecdsa_result s sig)

  -- The case of endCh in Sign of the EdDSA session.
  unfoldable pub eddsa_sign_end : Bool → SigningSession D → SignatureData → List Effect
  unfolding eddsa_result report_result
  eddsa_sign_end enqueues s sig =
      if not (lib.verify_eddsa s.data_of_key s.tx sig.r sig.s)
      then send_err signature_invalid ∷ []
      else report_result enqueues s (eddsa_result s sig)

  -- The session's end by its curve, with the test of the signature and the event.
  abbrev pub sign_end : Curve → Bool → SigningSession D → SignatureData → List Effect
  sign_end ecdsa = ecdsa_sign_end
  sign_end eddsa = eddsa_sign_end

  abbrev pub verifies : Curve → SigningSession D → SignatureData → Bool
  verifies ecdsa s sig = lib.verify_ecdsa s.data_of_key s.tx sig.r sig.s
  verifies eddsa s sig = lib.verify_eddsa s.data_of_key s.tx sig.r sig.s

  abbrev pub result_of : Curve → SigningSession D → SignatureData → SigningResult
  result_of ecdsa = ecdsa_result
  result_of eddsa = eddsa_result

  -- What is enqueued or handed on is the session's own result, of a signature that verifies.
  abbrev pub Vouched : Curve → SigningSession D → SignatureData → Effect → Type 0
  Vouched c s sig (enqueue topic bytes key) =
      (verifies c s sig ≡ true)
      × (lib.marshal_result (result_of c s sig) ≡ some bytes)
      × (topic ≡ s.result_topic)
  Vouched c s sig (on_success bytes) =
      (verifies c s sig ≡ true) × (lib.marshal_result (result_of c s sig) ≡ some bytes)
  Vouched c s sig _ = Unit

  report_result-Vouched :
      (c : Curve) (enqueues : Bool) (s : SigningSession D) (sig : SignatureData)
      → verifies c s sig ≡ true
      → All (Vouched c s sig) (report_result enqueues s (result_of c s sig))
  unfolding report_result
  report_result-Vouched c enqueues s sig v =
      elim (Option-cases (lib.marshal_result (result_of c s sig))) [
        | inl e ↦ rw (report_result, e) (tt, tt)
        | inr (bytes, e) ↦ elim (Bool-cases enqueues) [
          | inl q ↦ rw (report_result, e, q) ((v, e, refl), (tt, ((v, e), tt)))
          | inr q ↦ rw (report_result, e, q) ((v, e, refl), (tt, tt))
        ]
      ]

  -- Sign of either curve enqueues a result, or calls onSuccess with it, only where the signature verifies
  -- under the public key of the session for the bytes of its transaction; what it enqueues and hands on is
  -- the marshalled event of this wallet, transaction and signature.
  pub sign_end-Vouched :
      (c : Curve) (enqueues : Bool) (s : SigningSession D) (sig : SignatureData)
      → All (Vouched c s sig) (sign_end c enqueues s sig)
  unfolding ecdsa_sign_end eddsa_sign_end
  sign_end-Vouched ecdsa enqueues s sig = elim (Bool-cases (verifies ecdsa s sig)) [
    | inl e ↦ rw e (report_result-Vouched ecdsa enqueues s sig e)
    | inr e ↦ rw e (tt, tt)
  ]
  sign_end-Vouched eddsa enqueues s sig = elim (Bool-cases (verifies eddsa s sig)) [
    | inl e ↦ rw e (report_result-Vouched eddsa enqueues s sig e)
    | inr e ↦ rw e (tt, tt)
  ]
