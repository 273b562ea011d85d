-- ===== src/Registry/Health/Eviction.antt =====
-- The failure counters of checkPeersHealth in pkg/mpc/registry.go.
use mpcium.Base.{
  ℕ, ◌+◌, ◌*◌, ◌/◌, ◌<◌, suc, ◌≡◌, refl, none, some, List, [], ◌∷◌, ◌++◌, leb, if◌then◌else◌, arith,
  Str, str_eq, str_eq_iff, Dict, lookup, insert, erase, lookup-insert, lookup-erase, ap, ◌⊎◌, ◌≢◌,
}

-- How a probe ended: the error of SendToOtherWithRetry says "no responders", it is another error, or
-- there is none.
pub data Answer : Type 0 where
  no_responders other_error answered : Answer

-- The counters, and the nodes whose ready key was deleted from Consul, oldest first.
pub record Health : Type 0 where
  pub failure_count : Dict ℕ
  pub evicted : List Str

abbrev pub max_failures : ℕ
max_failures = 5

-- A missing key reads as 0.
abbrev pub failures : Str → Health → ℕ
failures id h = elim (lookup id h.failure_count) [ none ↦ 0 | some n ↦ n ]

-- The body of the loop of checkPeersHealth, for one peer.
unfoldable pub probe : Health → Str × Answer → Health
probe h (id, no_responders) =
    let n = failures id h + 1 in
    if leb max_failures n
    then record h {
      failure_count = erase id (insert id n h.failure_count);
      evicted = h.evicted ++ id ∷ [];
    }
    else record h { failure_count = insert id n h.failure_count }
probe h (id, other_error) = record h { failure_count = erase id h.failure_count }
probe h (id, answered) = record h { failure_count = erase id h.failure_count }

unfoldable pub probes : Health → List (Str × Answer) → Health
unfolding probe
probes h [] = h
probes h (p ∷ ps) = probes (probe h p) ps

-- How often a name is listed.
unfoldable pub count : Str → List Str → ℕ
count id [] = 0
count id (x ∷ xs) = let rest = count id xs in if str_eq x id then suc rest else rest

-- How many probes of a history went to a peer.
unfoldable pub probes_of : Str → List (Str × Answer) → ℕ
probes_of id [] = 0
probes_of id ((x, a) ∷ ps) = let rest = probes_of id ps in if str_eq x id then suc rest else rest

count-append :
    (id x : Str) (xs : List Str)
    → count id (xs ++ x ∷ []) ≡ count id xs + (if str_eq x id then 1 else 0)
unfolding count
count-append id x [] = ground arith
count-append id x (y ∷ ys) = ground (arith, count-append id x ys)

-- The peer did not respond to any of its probes; the other peers may have.
abbrev pub Silent : Str → List (Str × Answer) → Type 0
Silent id [] = Unit
Silent id ((x, a) ∷ ps) = ((x ≢ id) ⊎ (a ≡ no_responders)) × Silent id ps

-- Five times the evictions and the counter add up to the failed probes.
unanswered_probe :
    (id x : Str) (a : Answer) (h : Health)
    → (x ≢ id) ⊎ (a ≡ no_responders)
    → failures id h < max_failures
    → (failures id (probe h (x, a)) < max_failures)
      × (5 * count id (probe h (x, a)).evicted + failures id (probe h (x, a))
          ≡ 5 * count id h.evicted + failures id h + (if str_eq x id then 1 else 0))
unfolding probe
unanswered_probe id x no_responders h s b = ground (
  arith,
  str_eq_iff x id,
  count-append id x h.evicted,
  lookup-erase x id (insert x (failures x h + 1) h.failure_count),
  lookup-insert x id (failures x h + 1) h.failure_count,
)
unanswered_probe id x other_error h s b =
    ground (arith, str_eq_iff x id, lookup-erase x id h.failure_count)
unanswered_probe id x answered h s b =
    ground (arith, str_eq_iff x id, lookup-erase x id h.failure_count)

unanswered_probes :
    (id : Str) (ps : List (Str × Answer)) (h : Health)
    → Silent id ps
    → failures id h < max_failures
    → (failures id (probes h ps) < max_failures)
      × (5 * count id (probes h ps).evicted + failures id (probes h ps)
          ≡ 5 * count id h.evicted + failures id h + probes_of id ps)
unfolding probes probes_of
unanswered_probes id [] h s b = (b, omega arith)
unanswered_probes id ((x, a) ∷ ps) h s b =
    let now = unanswered_probe id x a h s.0 b in
    let later = unanswered_probes id ps (probe h (x, a)) s.1 now.0 in
    (later.0, ground (arith, later.1, now.1))

-- A peer that never responds is evicted once for every five of its probes, whatever the other peers
-- answer in between, and the counter holds the rest.
pub unanswered_evicted :
    (id : Str) (ps : List (Str × Answer))
    → Silent id ps
    → let h = probes (record { failure_count = []; evicted = [] }) ps in
      (count id h.evicted ≡ probes_of id ps / max_failures) × (failures id h < max_failures)
unfolding count lookup
unanswered_evicted id ps s =
    let r = unanswered_probes id ps (record { failure_count = []; evicted = [] }) s (omega arith) in
    (omega arith, r.0)

probe_resets :
    (id : Str) (h : Health) (a : Answer)
    → a ≢ no_responders
    → (failures id (probe h (id, a)) ≡ 0) × ((probe h (id, a)).evicted ≡ h.evicted)
unfolding probe
probe_resets id h no_responders n = absurd (n refl)
probe_resets id h other_error n =
    ground (arith, str_eq_iff id id, lookup-erase id id h.failure_count)
probe_resets id h answered n = ground (arith, str_eq_iff id id, lookup-erase id id h.failure_count)

-- A probe of a peer that is answered, or that fails with another error, starts its count afresh: it
-- is not evicted before it has failed to respond to five more probes, whatever the other peers do.
pub answered_resets :
    (id : Str) (h : Health) (a : Answer) (ps : List (Str × Answer))
    → a ≢ no_responders
    → Silent id ps
    → probes_of id ps < max_failures
    → count id (probes h ((id, a) ∷ ps)).evicted ≡ count id h.evicted
unfolding probes
answered_resets id h a ps n s few =
    let fresh = probe_resets id h a n in
    let later = unanswered_probes id ps (probe h (id, a)) s (omega (arith, fresh.0)) in
    omega (arith, later.0, later.1, fresh.0, ap (count id) fresh.1)
