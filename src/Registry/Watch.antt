-- ===== src/Registry/Watch.antt =====
-- What one tick of WatchPeersReady in pkg/mpc/registry.go does to the peers and to their keys.
use mpcium.Base.{
  contains-select, ◌≡◌, refl, ◌≢◌, Bool, true, false, not, ◌&&◌, ◌||◌, Option, none, some, List, [],
  ◌∷◌, ◌==◌, if◌then◌else◌, arith, Str, str_eq, str_eq_iff, contains, Dict, lookup, length, select,
  IsMap, lookup-insert, lookup-erase, Bool-cases, inl, inr, sym, ◌∙◌, ap,
}
use mpcium.Registry.Peers.{true_keys, count_true, parse_ready_keys}
use mpcium.Registry.{
  Registry, Lo, register_as, register_peer, register_peers, check_and_update_ready_state,
  register_ready_pairs, disconnect_peer, disconnect_peers, watch_tick,
}
use mpcium.Registry.Counts.{IsConsistent, watch_tick-IsConsistent}

-- Whether the map marks a peer ready.
abbrev pub marked : Str → Dict Bool → Bool
marked p m = elim (lookup p m) [ none ↦ false | some b ↦ b ]

-- The peers that a tick reads from the keys that Consul lists.
abbrev pub listed_peers : Registry → Option (List Str) → List Str
listed_peers r listed = parse_ready_keys r.node_id (elim listed [ none ↦ [] | some ks ↦ ks ])

-- The tick compares only the number of the listed peers with the number of the configured ones.
abbrev pub all_listed : Registry → Option (List Str) → Bool
all_listed r listed = length (listed_peers r listed) == length r.peer_node_ids

marked-register_as :
    (o : Option Bool) (id p : Str) (r : Registry)
    → marked p (register_as o id r).ready_map ≡ (str_eq id p || marked p r.ready_map)
unfolding register_as
marked-register_as none id p r = ground (arith, lookup-insert id p true r.ready_map)
marked-register_as (some false) id p r = ground (arith, lookup-insert id p true r.ready_map)
marked-register_as (some true) id p r = ground (arith, lookup-insert id p true r.ready_map)

marked-register_peers :
    (ids : List Str) (p : Str) (r : Registry)
    → marked p (register_peers ids r).ready_map ≡ (contains ids p || marked p r.ready_map)
unfolding register_peers register_peer contains
marked-register_peers [] p r = refl
marked-register_peers (id ∷ ids) p r = ground (
  arith,
  marked-register_peers ids p (register_peer id r),
  marked-register_as (lookup id r.ready_map) id p r,
)

marked-disconnect_peers :
    (ids : List Str) (p : Str) (r : Registry)
    → marked p (disconnect_peers ids r).ready_map ≡ (not (contains ids p) && marked p r.ready_map)
unfolding disconnect_peers disconnect_peer contains
marked-disconnect_peers [] p r = refl
marked-disconnect_peers (id ∷ ids) p r = ground (
  arith,
  marked-disconnect_peers ids p (disconnect_peer id r),
  lookup-insert id p false r.ready_map,
)

keys-register_as :
    (o : Option Bool) (id : Str) (r : Registry)
    → (register_as o id r).symmetric_keys ≡ r.symmetric_keys
unfolding register_as
keys-register_as none id r = refl
keys-register_as (some false) id r = refl
keys-register_as (some true) id r = refl

keys-register_peers :
    (ids : List Str) (r : Registry) → (register_peers ids r).symmetric_keys ≡ r.symmetric_keys
unfolding register_peers register_peer
keys-register_peers [] r = refl
keys-register_peers (id ∷ ids) r =
    keys-register_peers ids (register_peer id r) ∙ keys-register_as (lookup id r.ready_map) id r

keys-disconnect_peers :
    (ids : List Str) (p : Str) (r : Registry)
    → lookup p (disconnect_peers ids r).symmetric_keys
      ≡ (if contains ids p then none else lookup p r.symmetric_keys)
unfolding disconnect_peers disconnect_peer contains
keys-disconnect_peers [] p r = refl
keys-disconnect_peers (id ∷ ids) p r =
    ground (
      arith,
      keys-disconnect_peers ids p (disconnect_peer id r),
      lookup-erase id p r.symmetric_keys,
    )

contains-true_keys-marked :
    (p : Str) (m : Dict Bool) → IsMap m → contains (true_keys m) p ≡ marked p m
unfolding true_keys lookup contains
contains-true_keys-marked p [] h = refl
contains-true_keys-marked p ((j, true) ∷ m) h = ground (arith, contains-true_keys-marked p m)
contains-true_keys-marked p ((j, false) ∷ m) h =
    ground (arith, contains-true_keys-marked p m, str_eq_iff j p)

marked-check :
    (p : Str) (r : Registry)
    → marked p (check_and_update_ready_state r).ready_map ≡ marked p r.ready_map
unfolding check_and_update_ready_state
marked-check p r = ground arith

keys-check : (r : Registry) → (check_and_update_ready_state r).symmetric_keys ≡ r.symmetric_keys
unfolding check_and_update_ready_state
keys-check r = ground arith

module _ (lo : Lo) (listed : Option (List Str)) (r : Registry) (p : Str) where
  abbrev ids : List Str
  ids = listed_peers r listed

  abbrev gone : List Str
  gone = select (λ x. not (contains ids x)) (true_keys r.ready_map)

  -- After a tick a peer is marked ready exactly when it is listed, or when it was marked before and
  -- the number of the listed peers is that of the configured ones: then no peer is dropped.
  pub marked-watch_tick :
      IsConsistent r
      → marked p (watch_tick lo listed r).ready_map
        ≡ (contains ids p || (all_listed r listed && marked p r.ready_map))
  unfolding watch_tick register_ready_pairs
  marked-watch_tick v = elim (Bool-cases (all_listed r listed)) [
    | inl e ↦ rw (e, marked-check, marked-register_peers) refl
    | inr e ↦
        rw
          (
            e,
            marked-check,
            marked-register_peers,
            marked-disconnect_peers,
            lo.difference_lem (true_keys r.ready_map) ids,
            contains-select,
            contains-true_keys-marked p r.ready_map v.ready_IsMap,
          )
          (ground arith)
  ]

  -- A tick removes the symmetric key of a peer exactly when the peer was marked ready, is not listed
  -- any more, and the number of the listed peers differs from that of the configured ones.
  pub keys-watch_tick :
      IsConsistent r
      → lookup p (watch_tick lo listed r).symmetric_keys ≡ (
          if not (all_listed r listed) && marked p r.ready_map && not (contains ids p)
          then none
          else lookup p r.symmetric_keys)
  unfolding watch_tick register_ready_pairs
  keys-watch_tick v = elim (Bool-cases (all_listed r listed)) [
    | inl e ↦ rw (e, keys-check, keys-register_peers) refl
    | inr e ↦
        rw
          (
            e,
            keys-check,
            keys-register_peers,
            keys-disconnect_peers,
            lo.difference_lem (true_keys r.ready_map) ids,
            contains-select,
            contains-true_keys-marked p r.ready_map v.ready_IsMap,
          )
          (ground arith)
  ]

count_true-unmarked :
    (m : Dict Bool) → IsMap m → ((p : Str) → marked p m ≡ false) → count_true m ≡ 0
unfolding count_true lookup
count_true-unmarked [] h f = refl
count_true-unmarked ((k, true) ∷ m) h f = ground (arith, f k, str_eq_iff k k)
count_true-unmarked ((k, false) ∷ m) h f =
    count_true-unmarked m h.1 (λ p. ground (arith, f p, str_eq_iff k p))

disconnect_peers_rest :
    (ids : List Str) (r : Registry)
    → ((disconnect_peers ids r).ready ≡ r.ready)
      × ((disconnect_peers ids r).peer_node_ids ≡ r.peer_node_ids)
unfolding disconnect_peers disconnect_peer
disconnect_peers_rest [] r = (refl, refl)
disconnect_peers_rest (id ∷ ids) r = disconnect_peers_rest ids (disconnect_peer id r)

check-ready :
    (r : Registry)
    → r.ready ≡ false
    → count_true (check_and_update_ready_state r).ready_map ≢ length r.peer_node_ids
    → (check_and_update_ready_state r).ready ≡ false
unfolding check_and_update_ready_state
check-ready r e n = ground arith

length-zero : (xs : List Str) → length xs ≡ 0 → xs ≡ []
length-zero [] h = refl
length-zero (x ∷ xs) h = absurd (omega arith)

none_listed : (r : Registry) → r.peer_node_ids ≢ [] → all_listed r none ≡ false
unfolding parse_ready_keys
none_listed r some_peers = elim (Bool-cases (all_listed r none)) [
  | inl e ↦ absurd (some_peers (length-zero r.peer_node_ids (ground arith)))
  | inr e ↦ e
]

module _ (lo : Lo) (r : Registry) (v : IsConsistent r) (some_peers : r.peer_node_ids ≢ []) where
  failed_tick-marked : (p : Str) → marked p (watch_tick lo none r).ready_map ≡ false
  unfolding parse_ready_keys contains
  failed_tick-marked p = marked-watch_tick lo none r p v ∙ rw (none_listed r some_peers) refl

  failed_tick-count : count_true (watch_tick lo none r).ready_map ≡ 0
  failed_tick-count =
      count_true-unmarked _ (watch_tick-IsConsistent lo none r v).ready_IsMap failed_tick-marked

  failed_tick-ready : (watch_tick lo none r).ready ≡ false
  unfolding watch_tick parse_ready_keys register_ready_pairs register_peers
  failed_tick-ready =
      let count = failed_tick-count in
      let e = none_listed r some_peers in
      let gone : List Str = lo.difference (true_keys r.ready_map) [] in
      let left : Registry = disconnect_peers gone (record r { ready = false }) in
      let rest = disconnect_peers_rest gone (record r { ready = false }) in
      rw e (
        check-ready left rest.0
          λ h. some_peers (length-zero _ (sym (ap length rest.1) ∙ sym h ∙ (rw e at count))))

-- When Consul cannot be read, a node with at least one configured peer drops all of them: after the
-- tick no peer is marked ready and the flag `ready` is false.
failed_tick_drops_all :
    (lo : Lo) (r : Registry)
    → IsConsistent r
    → r.peer_node_ids ≢ []
    → ((p : Str) → marked p (watch_tick lo none r).ready_map ≡ false)
      × ((watch_tick lo none r).ready ≡ false)
failed_tick_drops_all lo r v some_peers =
    (failed_tick-marked lo r v some_peers, failed_tick-ready lo r v some_peers)
