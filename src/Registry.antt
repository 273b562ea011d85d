-- ===== src/Registry.antt =====
-- The peer registry of one node, pkg/mpc/registry.go, with the part of pkg/mpc/key_exchange_session.go
-- that changes its state. `ready_map`, `ready_count` and `ready` are the fields readyMap, readyCount
-- and ready; `symmetric_keys` is the map of the identity store, which the registry shares with the
-- key exchange. What a method does to the outside (the callbacks, the goroutine that broadcasts the
-- public key) is appended to `effects`, in the order of the calls.
-- The 64-bit counter is a natural number: `ready_count - 1` is only computed on registries where the
-- count is at least one, or two where it is written back (module Counts).
pub mod Peers
pub mod Health
pub mod Counts
pub mod Watch
mod Examples
use mpcium.Base.{
  ℕ, ◌+◌, ◌-◌, suc, Bool, true, false, not, ◌&&◌, ◌||◌, Option, none, some, List, [], ◌∷◌, ◌++◌,
  ==_iff, ◌==◌, leb, if◌then◌else◌, Str, str_eq, contains, Dict, lookup, insert, erase, length,
  select, ◌≡◌,
}
use Peers.{
  Effect, connected, reconnected, disconnected, broadcast_key, true_keys, count_true,
  parse_ready_keys,
}

pub record Registry : Type 0 where
  pub node_id : Str
  pub peer_node_ids : List Str
  pub ready_map : Dict Bool
  pub ready_count : ℕ
  pub ready : Bool
  pub mpc_threshold : ℕ
  pub symmetric_keys : Dict Str
  pub effects : List Effect

-- getPeerIDsExceptSelf
unfoldable pub get_peer_ids_except_self : Str → List Str → List Str
get_peer_ids_except_self node_id ids = select (λ id. not (str_eq id node_id)) ids

-- NewRegistry, for a threshold of at least one (the code stops the process otherwise).
unfoldable pub new_registry : Str → List Str → ℕ → Registry
unfolding get_peer_ids_except_self
new_registry node_id ids threshold = record {
  node_id = node_id;
  peer_node_ids = get_peer_ids_except_self node_id ids;
  ready_map = [];
  ready_count = 1;
  ready = false;
  mpc_threshold = threshold;
  symmetric_keys = [];
  effects = [];
}

-- isECDHReady: `len(symmetricKeys) == readyCount - 1`, over the integers.
unfoldable pub is_ecdh_ready : Registry → Bool
is_ecdh_ready r = suc (length r.symmetric_keys) == r.ready_count

-- ArePeersReady
unfoldable pub are_peers_ready : Registry → Bool
unfolding is_ecdh_ready
are_peers_ready r = r.ready && is_ecdh_ready r

-- AreMajorityReady
unfoldable pub are_majority_ready : Registry → Bool
unfolding is_ecdh_ready
are_majority_ready r = leb (r.mpc_threshold + 1) r.ready_count && is_ecdh_ready r

-- GetReadyPeersIncludeSelf
unfoldable pub get_ready_peers_include_self : Registry → List Str
unfolding true_keys
get_ready_peers_include_self r = true_keys r.ready_map ++ r.node_id ∷ []

-- checkAndUpdateReadyState
unfoldable pub check_and_update_ready_state : Registry → Registry
unfolding is_ecdh_ready count_true
check_and_update_ready_state r =
    if (count_true r.ready_map == length r.peer_node_ids) && is_ecdh_ready r && not r.ready
    then record r { ready = true }
    else r

-- The body of the loop of registerReadyPairs, by what readyMap holds for the peer.
unfoldable pub register_as : Option Bool → Str → Registry → Registry
register_as none id r = record r {
  ready_map = insert id true r.ready_map;
  ready_count = r.ready_count + 1;
  effects = r.effects ++ connected id ∷ broadcast_key ∷ [];
}
register_as (some false) id r = record r {
  ready_map = insert id true r.ready_map;
  ready_count = r.ready_count + 1;
  effects = r.effects ++ reconnected id ∷ broadcast_key ∷ [];
}
register_as (some true) id r = record r { ready_map = insert id true r.ready_map }

unfoldable pub register_peer : Str → Registry → Registry
unfolding register_as
register_peer id r = register_as (lookup id r.ready_map) id r

unfoldable pub register_peers : List Str → Registry → Registry
register_peers [] r = r
register_peers (id ∷ ids) r = register_peers ids (register_peer id r)

-- registerReadyPairs
unfoldable pub register_ready_pairs : List Str → Registry → Registry
unfolding register_peers check_and_update_ready_state
register_ready_pairs ids r = check_and_update_ready_state (register_peers ids r)

-- The loop over the peers that have gone, in WatchPeersReady.
unfoldable pub disconnect_peer : Str → Registry → Registry
disconnect_peer id r = record r {
  ready_map = insert id false r.ready_map;
  ready_count = r.ready_count - 1;
  symmetric_keys = erase id r.symmetric_keys;
  effects = r.effects ++ disconnected id ∷ [];
}

unfoldable pub disconnect_peers : List Str → Registry → Registry
disconnect_peers [] r = r
disconnect_peers (id ∷ ids) r = disconnect_peers ids (disconnect_peer id r)

-- The function `lo.Difference` of github.com/samber/lo, of which the code uses the first result: by
-- its documentation, the elements of the first slice that are absent from the second.
pub record Lo : Type 0 where
  pub difference : List Str → List Str → List Str
  pub difference_lem : (xs ys : List Str) → difference xs ys ≡ select (λ x. not (contains ys x)) xs

module _ (lo : Lo) where
  -- One tick of WatchPeersReady on the keys that Consul lists, `none` where the call failed: the code
  -- logs the error and goes on with no keys.
  unfoldable pub watch_tick : Option (List Str) → Registry → Registry
  unfolding disconnect_peers register_ready_pairs parse_ready_keys true_keys
  watch_tick listed r =
      let keys : List Str = elim listed [ none ↦ [] | some ks ↦ ks ] in
      let ids = parse_ready_keys r.node_id keys in
      if length ids == length r.peer_node_ids
      then register_ready_pairs ids r
      else let stale = record r { ready = false } in
        register_ready_pairs ids
          (disconnect_peers (lo.difference (true_keys r.ready_map) ids) stale)

-- The end of the handler of ListenKeyExchange, for a message of a peer whose signature is good:
-- the derived key is stored, and the callback runs when the number of keys is that of the peers.
unfoldable pub receive_key : Str → Str → Registry → Registry
unfolding check_and_update_ready_state
receive_key peer key r =
    let r' : Registry = record r { symmetric_keys = insert peer key r.symmetric_keys } in
    if length r'.symmetric_keys == length r'.peer_node_ids
    then check_and_update_ready_state r'
    else r'

-- What changes a registry: a tick of the watch, or a key that arrives.
pub data Input : Type 0 where
  tick : Option (List Str) → Input
  key : Str → Str → Input

unfoldable pub step : Lo → Registry → Input → Registry
step lo r (tick listed) = watch_tick lo listed r
step lo r (key peer k) = receive_key peer k r

unfoldable pub run : Lo → Registry → List Input → Registry
unfolding step
run lo r [] = r
run lo r (i ∷ is) = run lo (step lo r i) is
