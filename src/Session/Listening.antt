-- ===== src/Session/Listening.antt =====
-- The subscriptions of a session: the Subscribe… and ListenTo… methods and Close of pkg/mpc/session.go.
use mpcium.Base.{
  ℕ, zero, suc, Bool, true, false, if◌then◌else◌, Option, none, some, List, [], ◌∷◌, ◌++◌, Str,
  Outcome, ok, err,
}
use mpcium.Party.{party_id_to_node_id, party_ids_to_node_ids}
use mpcium.Session.{Session}
use mpcium.Session.Topics.{compose_broadcast_topic, compose_direct_topic, barrier_topic}

-- The errors with their topics.
pub data Failure : Type 0 where
  direct_failed broadcast_failed : Str → Failure

-- The fields barrierSub, broadcastSub and directSubs, each subscription as its topic, with what is sent
-- on ErrCh, whether doneCh is closed, and the number of goroutines of subscribeBroadcastAsync at work.
pub record Subs : Type 0 where
  pub barrier : Option Str
  pub broadcast : Option Str
  pub direct : List Str
  pub errors : List Failure
  pub stopped : Bool
  pub starting : ℕ

-- Whether Listen and Subscribe work on a topic.
pub record Broker : Type 0 where
  pub listens : Str → Bool
  pub subscribes : Str → Bool

-- subscribeDirectTopicAsync
unfoldable pub subscribe_direct_topic_async : Broker → Str → Subs → Outcome Failure Subs
subscribe_direct_topic_async b topic u =
    if b.listens topic
    then ok (record u { direct = u.direct ++ (topic ∷ []) })
    else err (direct_failed topic)

abbrev pub or_report : Subs → Outcome Failure Subs → Subs
or_report u (ok v) = v
or_report u (err e) = record u { errors = u.errors ++ (e ∷ []) }

-- subscribeBroadcastAsync, which starts a goroutine.
unfoldable pub subscribe_broadcast_async : Subs → Subs
subscribe_broadcast_async u = record u { starting = suc u.starting }

module _ {ℓ} {P : Type ℓ} where
  -- subscribeFromPeersAsync
  unfoldable pub subscribe_from_peers_async : Session P → Broker → List Str → Subs → Subs
  unfolding subscribe_direct_topic_async
  subscribe_from_peers_async s b [] u = u
  subscribe_from_peers_async s b (from ∷ from_ids) u = subscribe_from_peers_async s b from_ids (
      or_report u (
        subscribe_direct_topic_async b
          (compose_direct_topic s.curve s.protocol s.wallet_id from
            (party_id_to_node_id (some s.self_party_id)))
          u))

  -- The run of a goroutine of subscribeBroadcastAsync.
  unfoldable pub subscribe_broadcast : Session P → Broker → Subs → Subs
  subscribe_broadcast s b u =
      let topic = compose_broadcast_topic s.curve s.protocol s.wallet_id in
      elim u.starting [
        | zero ↦ u
        | suc n ↦
            if b.subscribes topic
            then record u { broadcast = some topic; starting = n }
            else record u { errors = u.errors ++ (broadcast_failed topic ∷ []); starting = n }
      ]

  -- ListenToIncomingMessageAsync
  unfoldable pub listen_to_incoming_message_async : Session P → Broker → Subs → Subs
  unfolding subscribe_from_peers_async subscribe_broadcast_async
  listen_to_incoming_message_async s b u =
      subscribe_from_peers_async s b (party_ids_to_node_ids s.party_ids)
        (subscribe_broadcast_async u)

  -- ListenToPeersAsync
  unfoldable pub listen_to_peers_async : Session P → Broker → List Str → Subs → Subs
  unfolding subscribe_from_peers_async
  listen_to_peers_async s b peer_ids u = subscribe_from_peers_async s b peer_ids u

  -- The subscription of WaitForPeersReady, which returns the error if there is one.
  unfoldable pub listen_barrier : Session P → Broker → Subs → Subs
  listen_barrier s b u =
      let topic =
        barrier_topic s.curve s.protocol s.wallet_id (party_id_to_node_id (some s.self_party_id)) in
      if b.listens topic then record u { barrier = some topic } else u

-- The topics of an optional subscription.
abbrev pub topics : Option Str → List Str
topics none = []
topics (some topic) = topic ∷ []

-- Close: the session, stopped, and the topics that are unsubscribed, in their order.
unfoldable pub close : Subs → Subs × List Str
close u = (record u { stopped = true }, topics u.barrier ++ (topics u.broadcast ++ u.direct))

abbrev pub no_subs : Subs
no_subs = record {
  barrier = none;
  broadcast = none;
  direct = [];
  errors = [];
  stopped = false;
  starting = 0;
}
