-- ===== src/Session/Barrier.antt =====
-- The readiness barrier, WaitForPeersReady of pkg/mpc/session.go.
use mpcium.Base.{
  ℕ, zero, suc, ◌+◌, ◌≤◌, ◌<◌, ◌≡◌, ◌≢◌, refl, Bool, true, false, Bool-cases, inl, inr,
  if◌then◌else◌, Option, none, some, List, [], ◌∷◌, Str, str_eq, arith, All, Outcome, ok, err,
}
use mpcium.Party.{party_id_to_node_id, party_ids_to_node_ids}
use mpcium.Session.{Session}
use mpcium.Session.Topics.{barrier_topic}

pub data Failure : Type 0 where
  listen_failed : Failure
  timed_out stopped_waiting : Str → Failure

-- The case that the select takes after a failed attempt: default, the deadline or doneCh.
pub data Choice : Type 0 where
  again deadline done : Choice

-- What happens while a node waits: whether Listen works on a topic, whether the n-th request is answered
-- on its topic, and the case of the select after it.
pub record Waiting : Type 0 where
  pub listens : Str → Bool
  pub answers : ℕ → Str → Bool
  pub choose : ℕ → Choice

-- The inner loop for a peer, from the n-th request on and on fuel: the number of the next request.
unfoldable pub wait_for_peer : (Str → Str) → Waiting → ℕ → ℕ → Str → Option (Outcome Failure ℕ)
wait_for_peer topic w zero n peer = none
wait_for_peer topic w (suc f) n peer = elim (w.answers n (topic peer)) [
  | true ↦ some (ok (suc n))
  | false ↦ elim (w.choose n) [
    | again ↦ wait_for_peer topic w f (suc n) peer
    | deadline ↦ some (err (timed_out peer))
    | done ↦ some (err (stopped_waiting peer))
  ]
]

-- The outer loop over the peers, which skips the node itself.
unfoldable pub wait_for_peers :
    (Str → Str) → Waiting → ℕ → Str → ℕ → List Str → Option (Outcome Failure ℕ)
unfolding wait_for_peer
wait_for_peers topic w f self n [] = some (ok n)
wait_for_peers topic w f self n (peer ∷ peers) = elim (str_eq peer self) [
  | true ↦ wait_for_peers topic w f self n peers
  | false ↦ elim (wait_for_peer topic w f n peer) [
    | none ↦ none
    | some (err e) ↦ some (err e)
    | some (ok m) ↦ wait_for_peers topic w f self m peers
  ]
]

abbrev pub topic_of {ℓ} : {P : Type ℓ} → Session P → Str → Str
topic_of s = barrier_topic s.curve s.protocol s.wallet_id

abbrev pub self_of {ℓ} : {P : Type ℓ} → Session P → Str
self_of s = party_id_to_node_id (some s.self_party_id)

-- WaitForPeersReady, with fuel for the requests to each peer.
unfoldable pub wait_for_peers_ready {ℓ} :
    {P : Type ℓ} → Session P → Waiting → ℕ → Option (Outcome Failure ℕ)
unfolding wait_for_peers
wait_for_peers_ready s w f =
    if w.listens (topic_of s (self_of s))
    then wait_for_peers (topic_of s) w f (self_of s) 0 (party_ids_to_node_ids s.party_ids)
    else some (err listen_failed)

-- The loop has ended, and if it ended well, then every peer but the node itself has answered a request.
abbrev pub Ends : (Str → Str) → Waiting → Str → List Str → Option (Outcome Failure ℕ) → Type 0
Ends topic w self peers none = ⊥
Ends topic w self peers (some (err e)) = Unit
Ends topic w self peers (some (ok m)) =
    All (λ peer. str_eq peer self ≡ false → (n : ℕ) × (w.answers n (topic peer) ≡ true)) peers

module _ (topic : Str → Str) (w : Waiting) (limit : ℕ)
    (stops : (n : ℕ) → limit ≤ n → w.choose n ≢ again) where
  abbrev Waited : Str → Option (Outcome Failure ℕ) → Type 0
  Waited peer none = ⊥
  Waited peer (some (err e)) = Unit
  Waited peer (some (ok m)) = (n : ℕ) × (w.answers n (topic peer) ≡ true)

  limit-fuel : (f n : ℕ) → limit < suc f + n → w.choose n ≡ again → 0 < f
  limit-fuel zero n h e = absurd (stops n (omega arith) e)
  limit-fuel (suc f) n h e = omega arith

  by_choice :
      (c : Choice) (f n : ℕ) (peer : Str)
      → (c ≡ again → Waited peer (wait_for_peer topic w f (suc n) peer))
      → Waited peer (elim c [
        | again ↦ wait_for_peer topic w f (suc n) peer
        | deadline ↦ some (err (timed_out peer))
        | done ↦ some (err (stopped_waiting peer))
      ])
  by_choice again f n peer next = next refl
  by_choice deadline f n peer next = tt
  by_choice done f n peer next = tt

  wait_for_peer-Waited :
      (f n : ℕ) (peer : Str) → limit < f + n → 0 < f → Waited peer (wait_for_peer topic w f n peer)
  unfolding wait_for_peer
  wait_for_peer-Waited zero n peer h p = ground arith
  wait_for_peer-Waited (suc f) n peer h p = elim (Bool-cases (w.answers n (topic peer))) [
    | inl a ↦ rw (wait_for_peer, Waited, a) (n, a)
    | inr a ↦
        rw (wait_for_peer, Waited, a)
          (by_choice (w.choose n) f n peer
            (λ e. wait_for_peer-Waited f (suc n) peer (omega arith) (limit-fuel f n h e)))
  ]

  skip :
      (r : Option (Outcome Failure ℕ)) (self peer : Str) (peers : List Str)
      → str_eq peer self ≡ true
      → Ends topic w self peers r
      → Ends topic w self (peer ∷ peers) r
  skip none self peer peers d x = x
  skip (some (err e)) self peer peers d x = tt
  skip (some (ok m)) self peer peers d x = ((λ k. ground arith), x)

  answered :
      (r : Option (Outcome Failure ℕ)) (self peer : Str) (peers : List Str)
      → (n : ℕ) × (w.answers n (topic peer) ≡ true)
      → Ends topic w self peers r
      → Ends topic w self (peer ∷ peers) r
  answered none self peer peers a x = x
  answered (some (err e)) self peer peers a x = tt
  answered (some (ok m)) self peer peers a x = ((λ k. a), x)

  by_peer :
      (r : Option (Outcome Failure ℕ)) (f : ℕ) (self peer : Str) (peers : List Str)
      → str_eq peer self ≡ false
      → Waited peer r
      → ((m : ℕ) → Ends topic w self peers (wait_for_peers topic w f self m peers))
      → Ends topic w self (peer ∷ peers) (elim r [
        | none ↦ none
        | some (err e) ↦ some (err e)
        | some (ok m) ↦ wait_for_peers topic w f self m peers
      ])
  by_peer none f self peer peers d x next = x
  by_peer (some (err e)) f self peer peers d x next = tt
  by_peer (some (ok m)) f self peer peers d x next =
      answered (wait_for_peers topic w f self m peers) self peer peers x (next m)

  wait_for_peers-Ends :
      (f : ℕ) (self : Str) (n : ℕ) (peers : List Str)
      → limit < f
      → Ends topic w self peers (wait_for_peers topic w f self n peers)
  unfolding wait_for_peers
  wait_for_peers-Ends f self n [] h = tt
  wait_for_peers-Ends f self n (peer ∷ peers) h = elim (Bool-cases (str_eq peer self)) [
    | inl a ↦
        rw (wait_for_peers, Ends, a)
          (skip _ self peer peers a (wait_for_peers-Ends f self n peers h))
    | inr a ↦
        rw (wait_for_peers, Ends, a)
          (by_peer (wait_for_peer topic w f n peer) f self peer peers a
            (wait_for_peer-Waited f n peer (omega arith) (omega arith))
            (λ m. wait_for_peers-Ends f self m peers h))
  ]

-- If from the `limit`-th request on the deadline or the session's end is seen after a request that
-- fails, then on more fuel than `limit` WaitForPeersReady ends: with an error, or after each node of the
-- session but the node itself has answered a request on its barrier topic.
pub wait_for_peers_ready-Ends {ℓ} :
    {P : Type ℓ} (s : Session P) (w : Waiting) (limit f : ℕ)
    → ((n : ℕ) → limit ≤ n → w.choose n ≢ again)
    → limit < f
    → Ends
        (topic_of s)
        w
        (self_of s)
        (party_ids_to_node_ids s.party_ids)
        (wait_for_peers_ready s w f)
unfolding wait_for_peers_ready
wait_for_peers_ready-Ends s w limit f stops h =
    elim (Bool-cases (w.listens (topic_of s (self_of s)))) [
      | inl a ↦
          rw (wait_for_peers_ready, a)
            (wait_for_peers-Ends (topic_of s) w limit stops f (self_of s) 0
              (party_ids_to_node_ids s.party_ids) h)
      | inr a ↦ rw (wait_for_peers_ready, Ends, a) tt
    ]
