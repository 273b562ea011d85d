-- ===== src/Node/Sessions.antt =====
-- The node's state and the three Create…Session methods of pkg/mpc/node.go.
use mpcium.Base.{
  ℕ, ◌+◌, ◌%◌, ◌++◌, Bool, not, ◌&&◌, if◌then◌else◌, ltb, Option, none, some, List, [], ◌∷◌, Str,
  codes, contains, select, length, Outcome, ok, err, ◌>>=◌, fail_if,
}
use mpcium.Keyinfo.{KeyInfo, StoreError}
use mpcium.Registry.{Registry, are_peers_ready, get_ready_peers_include_self}
use mpcium.Party.{PartyId, Tss, generate_party_ids, default_version}

-- `SessionTypeECDSA`, `SessionTypeEDDSA`, or any other value of the string type.
pub data SessionType : Type 0 where
  ecdsa eddsa : SessionType
  other : Str → SessionType

-- What the methods read. `key_info` is `Get` of the key info store (pkg/keyinfo), by the key id.
pub record Node : Type 0 where
  pub node_id : Str
  pub peer_registry : Registry
  pub key_info : Str → Outcome StoreError KeyInfo

pub data Error : Type 0 where
  peers_not_ready key_exists unsupported_type not_enough_peers not_in_participant_list : Error
  new_peers_too_few : Error
  new_peer_not_ready : Str → Error
  store : StoreError → Error
  -- `logger.Fatal`: the process ends.
  fatal : Error

-- What the session constructors are given, as far as it depends on the node.
pub record Session : Type 0 where
  pub session_type : SessionType
  pub wallet_id : Str
  pub participant_peer_ids : List Str
  pub self_party_id : Option PartyId
  pub party_ids : List PartyId
  pub threshold : ℕ
  -- The index of the pre-parameters; an EdDSA session has none.
  pub pre_params : Option ℕ

pub record ReshareSession : Type 0 where
  pub base : Session
  pub old_party_ids : List PartyId
  pub new_party_ids : List PartyId
  pub new_threshold : ℕ
  pub new_peer_ids : List Str
  pub is_new_peer : Bool
  pub version : ℕ

-- PurposeKeygen and PurposeReshare
abbrev pub purpose_keygen : Str
purpose_keygen = codes "keygen"

abbrev pub purpose_reshare : Str
purpose_reshare = codes "reshare"

-- sessionKeyPrefix
unfoldable pub session_key_prefix : SessionType → Outcome Error Str
session_key_prefix ecdsa = ok (codes "ecdsa")
session_key_prefix eddsa = ok (codes "eddsa")
session_key_prefix (other s) = err unsupported_type

abbrev pub from_store {ℓ} : {A : Type ℓ} → Outcome StoreError A → Outcome Error A
from_store (ok a) = ok a
from_store (err e) = err (store e)

-- getKeyInfo
unfoldable pub get_key_info : Node → SessionType → Str → Outcome Error KeyInfo
get_key_info p ecdsa wallet_id = from_store (p.key_info (codes "ecdsa:" ++ wallet_id))
get_key_info p eddsa wallet_id = from_store (p.key_info (codes "eddsa:" ++ wallet_id))
get_key_info p (other s) wallet_id = err unsupported_type

-- The version of a key info, where an unreadable one counts as the default.
abbrev pub version_of : Outcome StoreError KeyInfo → ℕ
version_of (ok info) = info.version
version_of (err e) = default_version

-- getVersion
unfoldable pub get_version : Node → SessionType → Str → Outcome Error ℕ
get_version p ecdsa wallet_id = ok (version_of (p.key_info (codes "ecdsa:" ++ wallet_id)))
get_version p eddsa wallet_id = ok (version_of (p.key_info (codes "eddsa:" ++ wallet_id)))
get_version p (other s) wallet_id = err fatal

-- getReadyPeersForSession
unfoldable pub get_ready_peers_for_session : KeyInfo → List Str → List Str
get_ready_peers_for_session info ready = select (contains ready) info.participant_peer_ids

-- ensureNodeIsParticipant
unfoldable pub ensure_node_is_participant : Node → KeyInfo → Outcome Error (Unit {0})
ensure_node_is_participant p info =
    if contains info.participant_peer_ids p.node_id then ok tt else err not_in_participant_list

-- The pre-parameters of a session that uses the first ones where it is of ECDSA.
abbrev pub first_pre_params : SessionType → Option ℕ
first_pre_params ecdsa = some 0
first_pre_params eddsa = none
first_pre_params (other s) = none

-- createECDSAKeyGenSession and createEDDSAKeyGenSession
unfoldable pub new_keygen_session : Tss → Node → SessionType → Str → ℕ → ℕ → Session
new_keygen_session tss p t wallet_id threshold version =
    let ready = get_ready_peers_include_self p.peer_registry in
    let (self, all) = generate_party_ids tss 0 p.node_id purpose_keygen ready version in
    record {
      session_type = t;
      wallet_id = wallet_id;
      participant_peer_ids = ready;
      self_party_id = self;
      party_ids = all;
      threshold = threshold;
      pre_params = first_pre_params t;
    }

-- The `switch` at the end of CreateKeyGenSession.
unfoldable pub keygen_session_of_type : Tss → Node → SessionType → Str → ℕ → Outcome Error Session
unfolding new_keygen_session
keygen_session_of_type tss p ecdsa wallet_id threshold =
    ok (new_keygen_session tss p ecdsa wallet_id threshold default_version)
keygen_session_of_type tss p eddsa wallet_id threshold =
    ok (new_keygen_session tss p eddsa wallet_id threshold default_version)
keygen_session_of_type tss p (other s) wallet_id threshold = err unsupported_type

-- CreateKeyGenSession: the error of getKeyInfo is dropped, and no key info means no key.
unfoldable pub create_keygen_session : Tss → Node → SessionType → Str → ℕ → Outcome Error Session
unfolding keygen_session_of_type
create_keygen_session tss p t wallet_id threshold =
    if not (are_peers_ready p.peer_registry)
    then err peers_not_ready
    else elim (get_key_info p t wallet_id) [
      | ok info ↦ err key_exists
      | err e ↦ keygen_session_of_type tss p t wallet_id threshold
    ]

-- The session that CreateSigningSession makes of its checked data.
unfoldable pub signing_session_of_type :
    SessionType → Str → KeyInfo → List Str → Option PartyId × List PartyId → Outcome Error Session
signing_session_of_type (other s) wallet_id info ready (self, all) = err unsupported_type
signing_session_of_type t wallet_id info ready (self, all) = ok (record {
  session_type = t;
  wallet_id = wallet_id;
  participant_peer_ids = ready;
  self_party_id = self;
  party_ids = all;
  threshold = info.threshold;
  pre_params = first_pre_params t;
})

-- CreateSigningSession
unfoldable pub create_signing_session : Tss → Node → SessionType → Str → Outcome Error Session
unfolding get_ready_peers_for_session ensure_node_is_participant signing_session_of_type
create_signing_session tss p t wallet_id = do
  version ← get_version p t wallet_id
  info ← get_key_info p t wallet_id
  let ready = get_ready_peers_for_session info (get_ready_peers_include_self p.peer_registry)
  enough ← fail_if (ltb (length ready) (info.threshold + 1)) not_enough_peers
  participant ← ensure_node_is_participant p info
  signing_session_of_type t wallet_id info ready
      (generate_party_ids tss 0 p.node_id purpose_keygen ready version)

-- The first of the new peers that is not ready.
unfoldable pub first_missing : List Str → List Str → Option Str
first_missing ready [] = none
first_missing ready (id ∷ ids) =
    let rest = first_missing ready ids in if contains ready id then rest else some id

-- Steps 5 and 6 of CreateReshareSession. Only for ECDSA are the participants and the pre-parameters
-- chosen anew, by the version.
unfoldable pub new_reshare_session :
    Tss → Node → SessionType → Str → KeyInfo → List Str → ℕ → List Str → Bool → ℕ → ReshareSession
new_reshare_session tss p t wallet_id info ready new_threshold new_ids is_new version =
    let (old_self, old_all) = generate_party_ids tss 0 p.node_id purpose_keygen ready version in
    let (new_self, new_all) =
      generate_party_ids tss (length ready) p.node_id purpose_reshare new_ids (version + 1) in
    let participants : List Str = elim t [
      | ecdsa ↦ if is_new then new_ids else info.participant_peer_ids
      | eddsa ↦ if is_new then new_ids else ready
      | other s ↦ []
    ] in
    let pre : Option ℕ = elim t [
      | ecdsa ↦ some (if is_new then version % 2 else 0)
      | eddsa ↦ none
      | other s ↦ none
    ] in
    record {
      base = record {
        session_type = t;
        wallet_id = wallet_id;
        participant_peer_ids = participants;
        self_party_id = if is_new then new_self else old_self;
        party_ids = if is_new then new_all else old_all;
        threshold = info.threshold;
        pre_params = pre;
      };
      old_party_ids = old_all;
      new_party_ids = new_all;
      new_threshold = new_threshold;
      new_peer_ids = new_ids;
      is_new_peer = is_new;
      version = info.version;
    }

-- CreateReshareSession from its fourth step on; `none` is the nil session of a node that the session
-- does not concern.
unfoldable pub reshare_session_of :
    Tss
    → Node
    → SessionType
    → Str
    → KeyInfo
    → ℕ
    → List Str
    → Bool
    → Outcome Error (Option ReshareSession)
unfolding get_ready_peers_for_session ensure_node_is_participant
reshare_session_of tss p t wallet_id info new_threshold new_ids is_new =
    let ready = get_ready_peers_for_session info (get_ready_peers_include_self p.peer_registry) in
    let is_in_old = contains info.participant_peer_ids p.node_id in
    let is_in_new = contains new_ids p.node_id in
    if is_new && not is_in_new
    then ok none
    else if not is_new && not is_in_old
    then ok none
    else if ltb (length ready) (info.threshold + 1)
    then err not_enough_peers
    else (if is_new then ok tt else ensure_node_is_participant p info) >>= λ _.
        get_version p t wallet_id >>= λ version. ok (
          some
            (new_reshare_session tss p t wallet_id info ready new_threshold new_ids is_new version))

-- CreateReshareSession
unfoldable pub create_reshare_session :
    Tss → Node → SessionType → Str → ℕ → List Str → Bool → Outcome Error (Option ReshareSession)
unfolding first_missing reshare_session_of
create_reshare_session tss p t wallet_id new_threshold new_ids is_new =
    if ltb p.peer_registry.ready_count (new_threshold + 1)
    then err not_enough_peers
    else if ltb (length new_ids) (new_threshold + 1)
    then err new_peers_too_few
    else elim (first_missing (get_ready_peers_include_self p.peer_registry) new_ids) [
      | some id ↦ err (new_peer_not_ready id)
      | none ↦ elim (session_key_prefix t) [
        | err e ↦ err e
        | ok prefix ↦ from_store (p.key_info (prefix ++ (codes ":" ++ wallet_id))) >>= λ info.
            reshare_session_of tss p t wallet_id info new_threshold new_ids is_new
      ]
    ]
