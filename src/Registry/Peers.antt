-- ===== src/Registry/Peers.antt =====
-- The readiness map of pkg/mpc/registry.go as a list of ready peers, and the keys "ready/<id>" under
-- which the nodes register in Consul.
use mpcium.Base.{
  ℕ, suc, Bool, true, false, ◌&&◌, ◌||◌, Option, none, some, List, [], ◌∷◌, ◌++◌, ◌==◌, leb,
  if◌then◌else◌, Str, codes, str_eq, Dict,
}

-- What a registry does to the outside.
pub data Effect : Type 0 where
  connected : Str → Effect
  reconnected : Str → Effect
  disconnected : Str → Effect
  broadcast_key : Effect

-- The peers that the map marks ready, in the order of the map.
unfoldable pub true_keys : Dict Bool → List Str
true_keys [] = []
true_keys ((k, true) ∷ m) = k ∷ true_keys m
true_keys ((k, false) ∷ m) = true_keys m

-- The count of checkAndUpdateReadyState.
unfoldable pub count_true : Dict Bool → ℕ
count_true [] = 0
count_true ((k, true) ∷ m) = suc (count_true m)
count_true ((k, false) ∷ m) = count_true m

-- White space, for an ASCII text.
abbrev is_space : ℕ → Bool
is_space c = (c == 32) || (leb 9 c && leb c 13)

skip_spaces : Str → Str
skip_spaces [] = []
skip_spaces (c ∷ s) = let rest = skip_spaces s in if is_space c then rest else c ∷ s

until_space : Str → Str
until_space [] = []
until_space (c ∷ s) = let rest = until_space s in if is_space c then [] else c ∷ rest

unfoldable pub strip_prefix : Str → Str → Option Str
strip_prefix [] s = some s
strip_prefix (a ∷ p) [] = none
strip_prefix (a ∷ p) (b ∷ s) = let rest = strip_prefix p s in if a == b then rest else none

-- `fmt.Sscanf(key, "ready/%s", &peerNodeID)`: the variable stays empty where the key does not fit.
unfoldable pub scan_ready_key : Str → Str
unfolding strip_prefix until_space skip_spaces
scan_ready_key key = elim (strip_prefix (codes "ready/") key) [
  | none ↦ []
  | some s ↦ until_space (skip_spaces s)
]

-- getReadyPeersFromKVStore, on the keys of the pairs. An id that does not parse is kept, as "".
unfoldable pub parse_ready_keys : Str → List Str → List Str
unfolding scan_ready_key
parse_ready_keys node_id [] = []
parse_ready_keys node_id (k ∷ ks) =
    let rest = parse_ready_keys node_id ks in
    let id = scan_ready_key k in if str_eq id node_id then rest else id ∷ rest

-- readyKey
unfoldable pub ready_key : Str → Str
ready_key node_id = codes "ready/" ++ node_id
