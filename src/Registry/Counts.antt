-- ===== src/Registry/Counts.antt =====
-- The count of ready peers in pkg/mpc/registry.go against the map that it summarises.
use mpcium.Base.{
  contains-append_self, ℕ, ◌≤◌, suc, ◌≡◌, refl, ◌≢◌, ◌↔◌, Bool, true, false, not, Option, none,
  some, List, [], ◌∷◌, ◌==◌, arith, Str, str_eq_iff, contains, Dict, lookup, insert, length, select,
  IsMap, insert-IsMap, erase-IsMap, lookup-insert, Bool-cases, inl, inr,
}
use mpcium.Registry.Peers.{true_keys, count_true, parse_ready_keys}
use mpcium.Registry.{
  get_ready_peers_include_self, Registry, Lo, new_registry, register_as, register_peer,
  register_peers, check_and_update_ready_state, disconnect_peer, disconnect_peers, watch_tick,
  receive_key, step, run, Input, tick, key, are_majority_ready,
}

-- A node counts itself among the ready peers.
pub self_ready : (r : Registry) → contains (get_ready_peers_include_self r) r.node_id ≡ true
unfolding get_ready_peers_include_self
self_ready r = contains-append_self _ r.node_id

-- The counter is one more than the number of peers marked ready, and the maps have no key twice.
pub record IsConsistent (r : Registry) : Type 0 where
  pub counted : r.ready_count ≡ suc (count_true r.ready_map)
  pub ready_IsMap : IsMap r.ready_map
  pub keys_IsMap : IsMap r.symmetric_keys

count_true-insert_new :
    (k : Str) (m : Dict Bool)
    → lookup k m ≢ some true
    → count_true (insert k true m) ≡ suc (count_true m)
unfolding count_true insert lookup
count_true-insert_new k [] h = refl
count_true-insert_new k ((j, true) ∷ m) h = ground (arith, count_true-insert_new k m)
count_true-insert_new k ((j, false) ∷ m) h = ground (arith, count_true-insert_new k m)

count_true-insert_old :
    (k : Str) (m : Dict Bool) → lookup k m ≡ some true → count_true (insert k true m) ≡ count_true m
unfolding count_true insert lookup
count_true-insert_old k [] h = cc
count_true-insert_old k ((j, true) ∷ m) h = ground (arith, count_true-insert_old k m)
count_true-insert_old k ((j, false) ∷ m) h = ground (arith, count_true-insert_old k m)

count_true-insert_down :
    (k : Str) (m : Dict Bool)
    → lookup k m ≡ some true
    → suc (count_true (insert k false m)) ≡ count_true m
unfolding count_true insert lookup
count_true-insert_down k [] h = cc
count_true-insert_down k ((j, true) ∷ m) h = ground (arith, count_true-insert_down k m)
count_true-insert_down k ((j, false) ∷ m) h = ground (arith, count_true-insert_down k m)

new_registry-IsConsistent :
    (id : Str) (ids : List Str) (t : ℕ) → IsConsistent (new_registry id ids t)
unfolding new_registry count_true
new_registry-IsConsistent id ids t = ground arith

register_as-IsConsistent :
    (o : Option Bool) (id : Str) (r : Registry)
    → lookup id r.ready_map ≡ o
    → IsConsistent r
    → IsConsistent (register_as o id r)
unfolding register_as
register_as-IsConsistent none id r e v =
    ground (arith, insert-IsMap id true r.ready_map, count_true-insert_new id r.ready_map)
register_as-IsConsistent (some false) id r e v =
    ground (arith, insert-IsMap id true r.ready_map, count_true-insert_new id r.ready_map)
register_as-IsConsistent (some true) id r e v =
    ground (arith, insert-IsMap id true r.ready_map, count_true-insert_old id r.ready_map)

register_peers-IsConsistent :
    (ids : List Str) (r : Registry) → IsConsistent r → IsConsistent (register_peers ids r)
unfolding register_peers register_peer
register_peers-IsConsistent [] r v = v
register_peers-IsConsistent (id ∷ ids) r v =
    register_peers-IsConsistent ids (register_peer id r) (register_as-IsConsistent _ id r refl v)

check-IsConsistent : (r : Registry) → IsConsistent r → IsConsistent (check_and_update_ready_state r)
unfolding check_and_update_ready_state
check-IsConsistent r v = ground arith

-- Every listed peer is marked ready, and none is listed twice.
abbrev AllReady : List Str → Dict Bool → Type 0
AllReady [] m = Unit
AllReady (k ∷ ks) m = (lookup k m ≡ some true) × (contains ks k ≡ false) × AllReady ks m

AllReady-insert :
    (k : Str) (ks : List Str) (m : Dict Bool)
    → contains ks k ≡ false
    → AllReady ks m
    → AllReady ks (insert k false m)
unfolding contains
AllReady-insert k [] m d h = tt
AllReady-insert k (j ∷ ks) m d h =
    ground
      (arith, AllReady-insert k ks m, lookup-insert k j false m, str_eq_iff k j, str_eq_iff j k)

disconnect_peer-IsConsistent :
    (id : Str) (r : Registry)
    → lookup id r.ready_map ≡ some true
    → IsConsistent r
    → IsConsistent (disconnect_peer id r)
unfolding disconnect_peer
disconnect_peer-IsConsistent id r e v = ground (
  arith,
  insert-IsMap id false r.ready_map,
  erase-IsMap id r.symmetric_keys,
  count_true-insert_down id r.ready_map,
)

disconnect_peers-IsConsistent :
    (ids : List Str) (r : Registry)
    → AllReady ids r.ready_map
    → IsConsistent r
    → IsConsistent (disconnect_peers ids r)
unfolding disconnect_peers disconnect_peer
disconnect_peers-IsConsistent [] r h v = v
disconnect_peers-IsConsistent (id ∷ ids) r h v =
    disconnect_peers-IsConsistent ids (disconnect_peer id r)
      (AllReady-insert id ids r.ready_map h.1 h.2) (disconnect_peer-IsConsistent id r h.0 v)

contains-true_keys :
    (k : Str) (m : Dict Bool) → lookup k m ≡ none → contains (true_keys m) k ≡ false
unfolding true_keys lookup contains
contains-true_keys k [] h = refl
contains-true_keys k ((j, true) ∷ m) h = ground (arith, contains-true_keys k m)
contains-true_keys k ((j, false) ∷ m) h = ground (arith, contains-true_keys k m)

contains-select :
    (p : Str → Bool) (k : Str) (ks : List Str)
    → contains ks k ≡ false
    → contains (select p ks) k ≡ false
unfolding contains
contains-select p k [] h = refl
contains-select p k (j ∷ ks) h = ground (arith, contains-select p k ks)

AllReady-cons :
    (j : Str) (b : Bool) (ks : List Str) (m : Dict Bool)
    → contains ks j ≡ false
    → AllReady ks m
    → AllReady ks ((j, b) ∷ m)
unfolding lookup contains
AllReady-cons j b [] m d h = tt
AllReady-cons j b (k ∷ ks) m d h =
    ground (arith, AllReady-cons j b ks m, str_eq_iff j k, str_eq_iff k j)

true_keys-AllReady : (m : Dict Bool) → IsMap m → AllReady (true_keys m) m
unfolding true_keys lookup
true_keys-AllReady [] h = tt
true_keys-AllReady ((k, true) ∷ m) h = ground (
  arith,
  contains-true_keys k m,
  AllReady-cons k true (true_keys m) m,
  true_keys-AllReady m,
  str_eq_iff k k,
)
true_keys-AllReady ((k, false) ∷ m) h =
    AllReady-cons k false (true_keys m) m (contains-true_keys k m h.0) (true_keys-AllReady m h.1)

select-AllReady :
    (p : Str → Bool) (ks : List Str) (m : Dict Bool) → AllReady ks m → AllReady (select p ks) m
select-AllReady p [] m h = tt
select-AllReady p (k ∷ ks) m h = ground (arith, select-AllReady p ks m, contains-select p k ks)

pub watch_tick-IsConsistent :
    (lo : Lo) (listed : Option (List Str)) (r : Registry)
    → IsConsistent r
    → IsConsistent (watch_tick lo listed r)
unfolding watch_tick
watch_tick-IsConsistent lo listed r v = elim (Bool-cases same) [
  | inl e ↦ rw e (check-IsConsistent _ (register_peers-IsConsistent ids r v))
  | inr e ↦
      rw (e, lo.difference_lem (true_keys r.ready_map) ids)
        (check-IsConsistent _ (
          register_peers-IsConsistent ids _ (
            disconnect_peers-IsConsistent gone (record r { ready = false })
              (select-AllReady _ _ _ (true_keys-AllReady r.ready_map v.ready_IsMap))
              (record {
                counted = v.counted;
                ready_IsMap = v.ready_IsMap;
                keys_IsMap = v.keys_IsMap;
              }))))
]
  where
    ids : List Str
    ids = parse_ready_keys r.node_id (elim listed [ none ↦ [] | some ks ↦ ks ])

    same : Bool
    same = length ids == length r.peer_node_ids

    gone : List Str
    gone = select (λ x. not (contains ids x)) (true_keys r.ready_map)

receive_key-IsConsistent :
    (peer k : Str) (r : Registry) → IsConsistent r → IsConsistent (receive_key peer k r)
unfolding receive_key
receive_key-IsConsistent peer k r v = ground (
  arith,
  insert-IsMap peer k r.symmetric_keys v.keys_IsMap,
  check-IsConsistent (record r { symmetric_keys = insert peer k r.symmetric_keys }),
)

step-IsConsistent :
    (lo : Lo) (r : Registry) (i : Input) → IsConsistent r → IsConsistent (step lo r i)
unfolding step
step-IsConsistent lo r (tick listed) v = watch_tick-IsConsistent lo listed r v
step-IsConsistent lo r (key peer k) v = receive_key-IsConsistent peer k r v

run-IsConsistent :
    (lo : Lo) (r : Registry) (is : List Input) → IsConsistent r → IsConsistent (run lo r is)
unfolding run
run-IsConsistent lo r [] v = v
run-IsConsistent lo r (i ∷ is) v = run-IsConsistent lo (step lo r i) is (step-IsConsistent lo r i v)

-- From a new registry, after any sequence of watch ticks (failed ones included) and arriving keys,
-- the counter is one more than the number of peers that the map marks ready, and neither the
-- readiness map nor the key map holds a key twice.
pub run-new_registry-IsConsistent :
    (lo : Lo) (id : Str) (ids : List Str) (t : ℕ) (is : List Input)
    → IsConsistent (run lo (new_registry id ids t) is)
run-new_registry-IsConsistent lo id ids t is =
    run-IsConsistent lo _ is (new_registry-IsConsistent id ids t)

-- After any such history AreMajorityReady answers true exactly when at least as many peers are
-- marked ready as the threshold says and there are as many symmetric keys as ready peers.
pub are_majority_ready-run :
    (lo : Lo) (id : Str) (ids : List Str) (t : ℕ) (is : List Input)
    → let r = run lo (new_registry id ids t) is in
      (are_majority_ready r ≡ true) ↔ (
        (r.mpc_threshold ≤ count_true r.ready_map)
        × (length r.symmetric_keys ≡ count_true r.ready_map))
unfolding are_majority_ready
are_majority_ready-run lo id ids t is =
    let v = run-new_registry-IsConsistent lo id ids t is in (λ h. ground arith, λ h. ground arith)
