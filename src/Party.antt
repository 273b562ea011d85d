-- ===== src/Party.antt =====
-- The party ids of the threshold protocols, pkg/mpc/party_id.go: a node id and a key version packed
-- into one big integer, and read back from it.
pub mod NodeId
pub mod Committee
pub mod Samples
mod Examples
use mpcium.Base.{
  ℕ, ◌≡◌, Bool, Option, none, some, List, [], ◌∷◌, ◌++◌, ◌==◌, if◌then◌else◌, Str, codes, str_eq,
  ◌+◌,
}
use mpcium.Text.BigInt.{set_bytes, bytes}
use mpcium.Text.Decimal.{print_decimal}
use mpcium.Text.Split.{before, trim_space}
use mathlib.Core.List.{Perm}

-- tss.PartyID as tss.NewPartyID fills it; its `Index`, which the sorting sets, is not used here.
pub record PartyId : Type 0 where
  pub id : Str
  pub moniker : Str
  pub key : ℕ

-- BackwardCompatibleVersion and DefaultVersion of pkg/mpc/node.go
abbrev pub backward_compatible_version : ℕ
backward_compatible_version = 0

abbrev pub default_version : ℕ
default_version = 1

-- The number that createPartyID packs. Versions are not negative.
unfoldable pub party_key : Str → ℕ → ℕ
party_key node_id version =
    if version == backward_compatible_version
    then set_bytes node_id
    else set_bytes (node_id ++ (codes ":" ++ print_decimal version))

-- createPartyID, given the text of the new random id.
unfoldable pub create_party_id : Str → Str → Str → ℕ → PartyId
create_party_id uuid node_id label version = record {
  id = uuid;
  moniker = label;
  key = party_key node_id version;
}

-- partyIDToNodeID
unfoldable pub party_id_to_node_id : Option PartyId → Str
unfolding before trim_space
party_id_to_node_id none = []
party_id_to_node_id (some p) = trim_space (before b':' (bytes p.key))

-- partyIDsToNodeIDs
unfoldable pub party_ids_to_node_ids : List PartyId → List Str
party_ids_to_node_ids [] = []
party_ids_to_node_ids (p ∷ ps) = party_id_to_node_id (some p) ∷ party_ids_to_node_ids ps

-- comparePartyIDs
unfoldable pub compare_party_ids : PartyId → PartyId → Bool
compare_party_ids x y = str_eq (bytes x.key) (bytes y.key)

-- What the code takes from outside: the texts of github.com/google/uuid, by the order of the calls,
-- and tss.SortPartyIDs of tss-lib, which by its documentation reorders the ids.
pub record Tss : Type 0 where
  pub uuid : ℕ → Str
  pub sort_party_ids : List PartyId → List PartyId
  pub sort_party_ids-perm : (ps : List PartyId) → Perm (sort_party_ids ps) ps

-- The loop of generatePartyIDs, from the n-th random id on.
unfoldable pub create_party_ids : Tss → ℕ → Str → ℕ → List Str → List PartyId
create_party_ids tss n label version [] = []
create_party_ids tss n label version (peer ∷ peers) =
    create_party_id (tss.uuid n) peer label version
    ∷ create_party_ids tss (n + 1) label version peers

-- The variable `self` of generatePartyIDs after its loop: each match overwrites it.
unfoldable pub self_party_id : Tss → ℕ → Str → Str → ℕ → List Str → Option PartyId → Option PartyId
self_party_id tss n node_id label version [] self = self
self_party_id tss n node_id label version (peer ∷ peers) self =
    self_party_id tss (n + 1) node_id label version peers
      (if str_eq peer node_id then some (create_party_id (tss.uuid n) peer label version) else self)

-- generatePartyIDs of the node `node_id`: its own party id and all of them.
unfoldable pub generate_party_ids :
    Tss → ℕ → Str → Str → List Str → ℕ → Option PartyId × List PartyId
unfolding self_party_id create_party_ids
generate_party_ids tss n node_id label peers version = (
  self_party_id tss n node_id label version peers none,
  tss.sort_party_ids (create_party_ids tss n label version peers),
)
