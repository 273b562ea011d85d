-- ===== src/Shares.antt =====
-- The key shares that the sessions of pkg/mpc keep: the ends of GenerateKey and Reshare, which store a
-- share in the node's key-value store and its key info in Consul, the checks and the loading in Init of
-- a signing session, and loadOldShareDataGeneric of pkg/mpc/session.go.
mod Keys
mod Cluster
mod Storing
mod Refinement
mod Atomicity
mod Signing
mod Examples
use mpcium.Base.{
  ℕ, zero, suc, ◌+◌, ◌≡◌, Bool, true, false, not, if◌then◌else◌, ltb, ◌==◌, length, Option, none,
  some, List, [], ◌∷◌, ◌++◌, Str, codes, Dict, lookup, insert, contains, select, Outcome, ok, err,
  ◌>>=◌, fail_if,
}
use mpcium.Keyinfo
use mpcium.Keyinfo.{KeyInfo, StoreError, Codec, save}
use mpcium.Party.{default_version}
use mpcium.Session.Topics.{Curve, ecdsa, eddsa}
use mpcium.Text.Decimal.{print_decimal}

-- The libraries, on the save data of tss-lib: encoding/json, which reads back what it marshals; whether
-- the public key is set; EncodeS256PubKey and SerializeCompressed on it; and lo.Intersect.
pub record Library {ℓ} (D : Type ℓ) : Type ℓ where
  pub codec : Codec
  pub marshal_share : D → Option Str
  pub unmarshal_share : Str → Option D
  pub unmarshal-marshal_share :
      (d : D) (s : Str) → marshal_share d ≡ some s → unmarshal_share s ≡ some d
  pub has_public_key : D → Bool
  pub encode_s256_public_key : D → Option Str
  pub serialize_compressed : D → Str
  pub intersect : List Str → List Str → List Str

-- A node's key-value store (BadgerDB), and Consul, which all nodes share.
pub record Stores : Type 0 where
  pub kvstore : Dict Str
  pub consul : Dict Str

-- Which of the calls succeed: Put and Get of the key-value store, and those of Consul.
pub record Answers : Type 0 where
  pub puts : Bool
  pub gets : Bool
  pub consul_answers : Bool

pub data Failure : Type 0 where
  marshal_failed put_failed get_failed key_missing unmarshal_failed encode_failed
        not_enough_participants incompatible_peers :
      Failure
  keyinfo_failed : StoreError → Failure

-- composeKey of the sessions of each curve.
unfoldable pub share_key : Curve → Str → Str
share_key ecdsa wallet_id = codes "ecdsa:" ++ wallet_id
share_key eddsa wallet_id = codes "eddsa:" ++ wallet_id

-- walletIDWithVersion
unfoldable pub wallet_id_with_version : Str → ℕ → Str
wallet_id_with_version wallet_id version =
    if ltb 0 version then wallet_id ++ (codes "_v" ++ print_decimal version) else wallet_id

-- Get of the key-value store.
unfoldable pub get_value : Answers → Stores → Str → Outcome Failure Str
get_value ans st key =
    if ans.gets
    then elim (lookup key st.kvstore) [ none ↦ err key_missing | some value ↦ ok value ]
    else err get_failed

abbrev pub from_keyinfo {ℓ} : {A : Type ℓ} → Outcome StoreError A → Outcome Failure A
from_keyinfo (ok a) = ok a
from_keyinfo (err e) = err (keyinfo_failed e)

module _ {ℓ} {D : Type ℓ} (lib : Library D) (ans : Answers) where
  abbrev pub from_saved : Option StoreError → Option Failure
  from_saved none = none
  from_saved (some e) = some (keyinfo_failed e)

  -- Save of the key info under the wallet's key.
  unfoldable pub save_key_info : Curve → Str → KeyInfo → Stores → Stores × Option Failure
  unfolding share_key save
  save_key_info c wallet_id info st =
      let (consul, e) = save lib.codec ans.consul_answers st.consul (share_key c wallet_id) info in
      (record st { consul = consul }, from_saved e)

  -- The steps that the ends of GenerateKey and Reshare share: the marshalled share is put under the
  -- wallet's id with the version, then the key info is saved.
  unfoldable pub store_share : Curve → Str → KeyInfo → D → Stores → Stores × Option Failure
  unfolding save_key_info wallet_id_with_version
  store_share c wallet_id info share st = elim (lib.marshal_share share) [
    | none ↦ (st, some marshal_failed)
    | some bytes ↦
        if ans.puts
        then save_key_info c wallet_id info (record st {
          kvstore =
              insert (share_key c (wallet_id_with_version wallet_id info.version)) bytes st.kvstore;
        })
        else (st, some put_failed)
  ]

  -- The encoding of the public key by the session's curve.
  unfoldable pub encode_public_key : Curve → D → Outcome Failure Str
  encode_public_key ecdsa share = elim (lib.encode_s256_public_key share) [
    | none ↦ err encode_failed
    | some key ↦ ok key
  ]
  encode_public_key eddsa share = ok (lib.serialize_compressed share)

  abbrev pub after_storing {κ} :
      {A : Type κ} → Option Failure → Outcome Failure A → Outcome Failure A
  after_storing (some e) r = err e
  after_storing none r = r

  -- The end of GenerateKey: what is stored, and the public key or the error that is sent.
  unfoldable pub generate_key_end :
      Curve → Str → List Str → ℕ → D → Stores → Stores × Outcome Failure Str
  unfolding store_share encode_public_key
  generate_key_end c wallet_id peers threshold share st =
      let info : KeyInfo = record {
        participant_peer_ids = peers;
        threshold = threshold;
        version = default_version;
      } in
      let (after, e) = store_share c wallet_id info share st in
      (after, after_storing e (encode_public_key c share))

  abbrev pub as_some {κ} : {A : Type κ} → Outcome Failure A → Outcome Failure (Option A)
  as_some (ok a) = ok (some a)
  as_some (err e) = err e

  -- The end of Reshare in a session at `version`: a node that is only in the old committee, whose save
  -- data has no public key, stores nothing.
  unfoldable pub reshare_end :
      Curve → Str → ℕ → List Str → ℕ → D → Stores → Stores × Outcome Failure (Option Str)
  unfolding store_share encode_public_key
  reshare_end c wallet_id version new_peers new_threshold share st =
      let info : KeyInfo = record {
        participant_peer_ids = new_peers;
        threshold = new_threshold;
        version = version + 1;
      } in
      let (after, e) = store_share c wallet_id info share st in
      if lib.has_public_key share
      then (after, after_storing e (as_some (encode_public_key c share)))
      else (st, ok none)

  -- The share at a version.
  unfoldable pub load_share : Curve → Str → ℕ → Stores → Outcome Failure D
  unfolding get_value share_key wallet_id_with_version
  load_share c wallet_id version st =
      get_value ans st (share_key c (wallet_id_with_version wallet_id version)) >>= λ bytes.
      elim (lib.unmarshal_share bytes) [ none ↦ err unmarshal_failed | some share ↦ ok share ]

  -- loadOldShareDataGeneric
  unfoldable pub load_old_share_data_generic : Curve → Str → ℕ → Stores → Outcome Failure D
  unfolding get_value share_key wallet_id_with_version
  load_old_share_data_generic c wallet_id version st =
      let versioned = get_value ans st (share_key c (wallet_id_with_version wallet_id version)) in
      let unversioned = get_value ans st (share_key c wallet_id) in
      (if version == 0 then unversioned else versioned) >>= λ bytes.
      elim (lib.unmarshal_share bytes) [ none ↦ err unmarshal_failed | some share ↦ ok share ]

  -- Init of a signing session up to the derivation: the key info and the share that it signs with.
  unfoldable pub init_signing : Curve → Str → List Str → Stores → Outcome Failure (KeyInfo × D)
  unfolding load_share
  init_signing c wallet_id participants st = do
    info ← from_keyinfo (Keyinfo.get lib.codec ans.consul_answers st.consul (share_key c wallet_id))
    enough ← fail_if (ltb (length participants) (info.threshold + 1)) not_enough_participants
    compatible ←
        fail_if
          (ltb (length (lib.intersect participants info.participant_peer_ids)) (info.threshold + 1))
          incompatible_peers
    share ← load_share c wallet_id info.version st
    ok (info, share)

-- GetLegacyCommitteePeers
unfoldable pub get_legacy_committee_peers : List Str → List Str → List Str
get_legacy_committee_peers old_peer_ids new_peer_ids =
    select (λ a. not (contains new_peer_ids a)) old_peer_ids
