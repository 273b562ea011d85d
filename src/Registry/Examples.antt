-- ===== src/Registry/Examples.antt =====
-- The registry theorems at concrete registries, and runs of its operations.
use mpcium.Base.{
  ◌<◌, ◌/◌, ◌≡◌, refl, true, not, some, List, [], ◌∷◌, arith, Str, codes, contains, lookup, select,
  insert, erase, str_eq,
}
use mpcium.Registry.Peers.{parse_ready_keys}
use mpcium.Registry.{
  Registry, Lo, receive_key, register_peer, Input, tick, key, new_registry, run, watch_tick,
  are_peers_ready, get_ready_peers_include_self,
}
use mpcium.Registry.Counts.{IsConsistent, run-new_registry-IsConsistent}
use mpcium.Registry.Health.{
  Answer, no_responders, answered, probes, count, failures, probes_of, max_failures,
  unanswered_evicted,
}

abbrev plain_lo : Lo
plain_lo = record {
  difference = λ xs ys. select (λ x. not (contains ys x)) xs;
  difference_lem = λ xs ys. refl;
}

abbrev ids : List Str
ids = codes "n0" ∷ codes "n1" ∷ codes "n2" ∷ []

abbrev ready_keys : List Str
ready_keys = codes "ready/n0" ∷ codes "ready/n1" ∷ codes "ready/n2" ∷ []

abbrev history : List Input
history =
    tick (some ready_keys) ∷ key (codes "n1") (codes "k1") ∷ key (codes "n2") (codes "k2") ∷ []

abbrev fresh : Registry
fresh = new_registry (codes "n0") ids 1

abbrev settled : Registry
settled = run plain_lo fresh history

settled_ready :
    (are_peers_ready settled ≡ true)
    × (get_ready_peers_include_self settled ≡ codes "n1" ∷ codes "n2" ∷ codes "n0" ∷ [])
unfolding run new_registry watch_tick receive_key register_peer parse_ready_keys contains lookup
    str_eq insert erase are_peers_ready get_ready_peers_include_self
settled_ready = (refl, refl)

-- A key that does not parse counts as a peer with an empty id.
unreadable_key : parse_ready_keys (codes "n0") (codes "ready/" ∷ []) ≡ [] ∷ []
unfolding parse_ready_keys str_eq
unreadable_key = refl

run-new_registry-IsConsistent_example : IsConsistent settled
run-new_registry-IsConsistent_example =
    run-new_registry-IsConsistent plain_lo (codes "n0") ids 1 history

abbrev silence : List (Str × Answer)
silence =
    (codes "n1", no_responders)
    ∷ (codes "n2", answered)
    ∷ (codes "n1", no_responders)
    ∷ (codes "n1", no_responders)
    ∷ (codes "n1", no_responders)
    ∷ (codes "n1", no_responders)
    ∷ (codes "n1", no_responders)
    ∷ []

unanswered_evicted_example :
    let h = probes (record { failure_count = []; evicted = [] }) silence in
    (count (codes "n1") h.evicted ≡ probes_of (codes "n1") silence / max_failures)
    × (failures (codes "n1") h < max_failures)
unanswered_evicted_example = unanswered_evicted (codes "n1") silence (ground arith)

abbrev two_more : List (Str × Answer)
two_more = (codes "n1", no_responders) ∷ (codes "n1", no_responders) ∷ []
