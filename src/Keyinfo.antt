-- ===== src/Keyinfo.antt =====
-- The store of key infos in Consul, pkg/keyinfo/keyinfo.go. Consul is the map from its keys to its
-- values; a call of it that fails is `none`, and then nothing is stored. The JSON codec of the record
-- is a parameter, of which the store needs that a marshalled record is read back.
pub mod Laws
pub mod Samples
use mpcium.Base.{
  ℕ, ◌≡◌, ◌++◌, Bool, if◌then◌else◌, Option, none, some, List, Str, codes, Dict, lookup, insert,
  Outcome, ok, err,
}

pub record KeyInfo : Type 0 where
  pub participant_peer_ids : List Str
  pub threshold : ℕ
  pub version : ℕ

-- The errors of `Get`, and that of `Save`.
pub data StoreError : Type 0 where
  get_failed not_found bad_json save_failed : StoreError

-- encoding/json on a key info.
pub record Codec : Type 0 where
  pub marshal : KeyInfo → Str
  pub unmarshal : Str → Option KeyInfo
  pub unmarshal-marshal : (info : KeyInfo) → unmarshal (marshal info) ≡ some info

-- composeKey
unfoldable pub compose_key : Str → Str
compose_key wallet_id = codes "threshold_keyinfo/" ++ wallet_id

-- The part of `Get` after the call of Consul, which gives the pair's value, or no pair.
unfoldable pub read_pair : Codec → Option Str → Outcome StoreError KeyInfo
read_pair codec none = err not_found
read_pair codec (some value) = elim (codec.unmarshal value) [
  | none ↦ err bad_json
  | some info ↦ ok info
]

-- store.Get, where Consul answers or not.
unfoldable pub get : Codec → Bool → Dict Str → Str → Outcome StoreError KeyInfo
unfolding read_pair compose_key
get codec answers consul wallet_id =
    if answers then read_pair codec (lookup (compose_key wallet_id) consul) else err get_failed

-- store.Save: what Consul holds afterwards, and the error.
unfoldable pub save : Codec → Bool → Dict Str → Str → KeyInfo → Dict Str × Option StoreError
unfolding compose_key
save codec answers consul wallet_id info =
    if answers
    then (insert (compose_key wallet_id) (codec.marshal info) consul, none)
    else (consul, some save_failed)
