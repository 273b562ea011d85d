-- ===== src/Session/Closing.antt =====
-- What Close unsubscribes after whatever a session has done: pkg/mpc/session.go. A subscription is named by
-- its topic; the code waits for the peers and listens once in a session.
use mpcium.Base.{
  ℕ, zero, suc, ◌||◌, ◌≡◌, refl, sym, ap, ◌∙◌, Bool, true, false, Bool-cases, inl, inr,
  if◌then◌else◌, not, Option, none, some, List, [], ◌∷◌, ◌++◌, Str, select, map, append_nil,
  append_assoc,
}
use mpcium.Party.{party_id_to_node_id, party_ids_to_node_ids}
use mpcium.Session.{Session}
use mpcium.Session.Topics.{compose_broadcast_topic, compose_direct_topic, barrier_topic}
use mpcium.Session.Listening.{
  direct_failed, broadcast_failed, Subs, Broker, subscribe_direct_topic_async,
  subscribe_from_peers_async, subscribe_broadcast_async, subscribe_broadcast,
  listen_to_incoming_message_async, listen_to_peers_async, listen_barrier, topics, close, no_subs,
}

-- What a session does to its subscriptions: ListenToIncomingMessageAsync, ListenToPeersAsync, the start
-- of WaitForPeersReady, and the run of a goroutine of subscribeBroadcastAsync.
pub data Step : Type 0 where
  listening waiting subscribing : Step
  listening_to : List Str → Step

module _ {ℓ} {P : Type ℓ} (s : Session P) (b : Broker) where
  abbrev topic_from : Str → Str
  topic_from from =
      compose_direct_topic s.curve s.protocol s.wallet_id from
        (party_id_to_node_id (some s.self_party_id))

  -- What subscribing to the direct topics from some nodes adds.
  record Adds (from_ids : List Str) (u v : Subs) : Type 0 where
    barrier : v.barrier ≡ u.barrier
    broadcast : v.broadcast ≡ u.broadcast
    starting : v.starting ≡ u.starting
    direct : v.direct ≡ u.direct ++ select b.listens (map topic_from from_ids)
    errors :
        v.errors
        ≡ u.errors ++ map direct_failed (select (λ t. not (b.listens t)) (map topic_from from_ids))

  subscribe_from_peers_async-Adds :
      (from_ids : List Str) (u : Subs) → Adds from_ids u (subscribe_from_peers_async s b from_ids u)
  unfolding subscribe_from_peers_async subscribe_direct_topic_async
  subscribe_from_peers_async-Adds [] u = record {
    barrier = refl;
    broadcast = refl;
    starting = refl;
    direct = sym (append_nil u.direct);
    errors = sym (append_nil u.errors);
  }
  subscribe_from_peers_async-Adds (from ∷ from_ids) u =
      elim (Bool-cases (b.listens (topic_from from))) [
        | inl a ↦
            let rest =
              subscribe_from_peers_async-Adds from_ids
                (record u { direct = u.direct ++ (topic_from from ∷ []) }) in
            rw a (record {
              barrier = rest.barrier;
              broadcast = rest.broadcast;
              starting = rest.starting;
              direct = rw a (rest.direct ∙ append_assoc u.direct (topic_from from ∷ []) _);
              errors = rw a rest.errors;
            })
        | inr a ↦
            let rest =
              subscribe_from_peers_async-Adds from_ids
                (record u { errors = u.errors ++ (direct_failed (topic_from from) ∷ []) }) in
            rw a (record {
              barrier = rest.barrier;
              broadcast = rest.broadcast;
              starting = rest.starting;
              direct = rw a rest.direct;
              errors =
                  rw a
                    (rest.errors ∙ append_assoc u.errors (direct_failed (topic_from from) ∷ []) _);
            })
      ]

  unfoldable pub run : List Step → Subs → Subs
  unfolding listen_to_incoming_message_async listen_to_peers_async listen_barrier
      subscribe_broadcast
  run [] u = u
  run (listening ∷ xs) u = run xs (listen_to_incoming_message_async s b u)
  run (listening_to ids ∷ xs) u = run xs (listen_to_peers_async s b ids u)
  run (waiting ∷ xs) u = run xs (listen_barrier s b u)
  run (subscribing ∷ xs) u = run xs (subscribe_broadcast s b u)

  abbrev pub own_barrier : Str
  own_barrier =
      barrier_topic s.curve s.protocol s.wallet_id (party_id_to_node_id (some s.self_party_id))

  abbrev pub broadcast_topic : Str
  broadcast_topic = compose_broadcast_topic s.curve s.protocol s.wallet_id

  -- The nodes that a step listens to.
  abbrev pub heard : Step → List Str
  heard listening = party_ids_to_node_ids s.party_ids
  heard (listening_to ids) = ids
  heard _ = []

  -- The direct topics of all steps that could be listened to.
  unfoldable pub direct_topics : List Step → List Str
  direct_topics [] = []
  direct_topics (x ∷ xs) = select b.listens (map topic_from (heard x)) ++ direct_topics xs

  -- Whether WaitForPeersReady has listened to its barrier.
  unfoldable pub has_barrier : List Step → Bool
  has_barrier [] = false
  has_barrier (waiting ∷ xs) = b.listens own_barrier || has_barrier xs
  has_barrier (_ ∷ xs) = has_barrier xs

  -- Whether a goroutine has subscribed to the broadcast topic, with a number of them at work.
  unfoldable pub has_broadcast : ℕ → List Step → Bool
  has_broadcast n [] = false
  has_broadcast n (listening ∷ xs) = has_broadcast (suc n) xs
  has_broadcast zero (subscribing ∷ xs) = has_broadcast zero xs
  has_broadcast (suc n) (subscribing ∷ xs) = b.subscribes broadcast_topic || has_broadcast n xs
  has_broadcast n (_ ∷ xs) = has_broadcast n xs

  -- The subscriptions after some steps.
  record Subscribed (xs : List Step) (u v : Subs) : Type 0 where
    barrier : v.barrier ≡ (if has_barrier xs then some own_barrier else u.barrier)
    broadcast :
        v.broadcast ≡ (if has_broadcast u.starting xs then some broadcast_topic else u.broadcast)
    direct : v.direct ≡ u.direct ++ direct_topics xs

  after-Adds :
      (ids : List Str) (xs : List Step) (u v w : Subs)
      → Adds ids u v
      → Subscribed xs v w
      → (w.barrier ≡ (if has_barrier xs then some own_barrier else u.barrier))
        × (w.broadcast
            ≡ (if has_broadcast u.starting xs then some broadcast_topic else u.broadcast))
        × (w.direct ≡ u.direct ++ (select b.listens (map topic_from ids) ++ direct_topics xs))
  after-Adds ids xs u v w adds r = (
    r.barrier ∙ ap (λ o. if has_barrier xs then some own_barrier else o) adds.barrier,
    r.broadcast
        ∙ ap (λ n. if has_broadcast n xs then some broadcast_topic else v.broadcast) adds.starting
        ∙ ap (λ o. if has_broadcast u.starting xs then some broadcast_topic else o) adds.broadcast,
    r.direct
        ∙ ap (λ d. d ++ direct_topics xs) adds.direct
        ∙ append_assoc u.direct (select b.listens (map topic_from ids)) (direct_topics xs),
  )

  if_same : (c : Bool) (o : Option Str) → (if c then o else o) ≡ o
  if_same true o = refl
  if_same false o = refl

  subscribing-Subscribed :
      (xs : List Step) (u : Subs)
      → ((v : Subs) → Subscribed xs v (run xs v))
      → (n : ℕ)
      → Subscribed
          (subscribing ∷ xs)
          (record u { starting = n })
          (run (subscribing ∷ xs) (record u { starting = n }))
  unfolding run has_barrier has_broadcast direct_topics subscribe_broadcast
  subscribing-Subscribed xs u rest zero =
      let r = rest (record u { starting = 0 }) in
      record { barrier = r.barrier; broadcast = r.broadcast; direct = r.direct }
  subscribing-Subscribed xs u rest (suc n) = elim (Bool-cases (b.subscribes broadcast_topic)) [
    | inl e ↦
        let r = rest (record u { broadcast = some broadcast_topic; starting = n }) in
        rw e (record {
          barrier = r.barrier;
          broadcast = rw e (r.broadcast ∙ if_same (has_broadcast n xs) (some broadcast_topic));
          direct = r.direct;
        })
    | inr e ↦
        let r = rest (record u {
          errors = u.errors ++ (broadcast_failed broadcast_topic ∷ []);
          starting = n;
        }) in
        rw e (record { barrier = r.barrier; broadcast = rw e r.broadcast; direct = r.direct })
  ]

  run-Subscribed : (xs : List Step) (u : Subs) → Subscribed xs u (run xs u)
  unfolding run has_barrier has_broadcast direct_topics listen_to_incoming_message_async
      listen_to_peers_async listen_barrier subscribe_broadcast subscribe_broadcast_async
  run-Subscribed [] u = record {
    barrier = refl;
    broadcast = refl;
    direct = sym (append_nil u.direct);
  }
  run-Subscribed (listening ∷ xs) u =
      let ids = party_ids_to_node_ids s.party_ids in
      let u' = subscribe_broadcast_async u in
      let v = subscribe_from_peers_async s b ids u' in
      let (barrier, broadcast, direct) =
        after-Adds ids xs u' v (run xs v) (subscribe_from_peers_async-Adds ids u')
          (run-Subscribed xs v) in
      record { barrier = barrier; broadcast = broadcast; direct = direct }
  run-Subscribed (listening_to ids ∷ xs) u =
      let v = subscribe_from_peers_async s b ids u in
      let (barrier, broadcast, direct) =
        after-Adds ids xs u v (run xs v) (subscribe_from_peers_async-Adds ids u)
          (run-Subscribed xs v) in
      record { barrier = barrier; broadcast = broadcast; direct = direct }
  run-Subscribed (waiting ∷ xs) u = elim (Bool-cases (b.listens own_barrier)) [
    | inr e ↦
        let r = run-Subscribed xs u in
        rw e (record { barrier = rw e r.barrier; broadcast = r.broadcast; direct = r.direct })
    | inl e ↦
        let r = run-Subscribed xs (record u { barrier = some own_barrier }) in
        rw e (record {
          barrier = rw e (r.barrier ∙ if_same (has_barrier xs) (some own_barrier));
          broadcast = r.broadcast;
          direct = r.direct;
        })
  ]
  run-Subscribed (subscribing ∷ xs) u = subscribing-Subscribed xs u (run-Subscribed xs) u.starting

  topics_if :
      (c : Bool) (topic : Str)
      → topics (if c then some topic else none) ≡ (if c then topic ∷ [] else [])
  topics_if true topic = refl
  topics_if false topic = refl

  -- Whatever the session has done, in any order: Close unsubscribes its own barrier topic, if it could
  -- listen to it, its broadcast topic, if a goroutine that was started has subscribed to it by then, and
  -- the direct topics from all nodes that it has listened to, those that it could listen to, in their
  -- order, and no other topic.
  pub close-run :
      (xs : List Step)
      → (close (run xs no_subs)).1
        ≡ (if has_barrier xs then own_barrier ∷ [] else [])
          ++ ((if has_broadcast 0 xs then broadcast_topic ∷ [] else []) ++ direct_topics xs)
  unfolding close
  close-run xs =
      let r = run-Subscribed xs no_subs in
      rw (r.barrier, r.broadcast, r.direct)
        (rw (topics_if (has_barrier xs) own_barrier, topics_if (has_broadcast 0 xs) broadcast_topic)
          refl)
