-- ===== src/Messaging.antt =====
-- Messages to one node: Listen and SendToSelf of pkg/messaging/point2point.go, with Unsubscribe of a
-- subscription. The calls of NATS are recorded, and whether they succeed is an input.
pub mod Handlers
mod Examples
use mpcium.Base.{
  Bool, if◌then◌else◌, Option, none, some, List, [], ◌∷◌, ◌++◌, Str, Dict, lookup, insert, Outcome,
  ok, err, map,
}

pub data Call : Type 0 where
  subscribe flush unsubscribe : Str → Call

pub data Failure : Type 0 where
  subscribe_failed flush_failed no_handlers : Failure

-- natsDirectMessaging, with the calls that were made on its connection; handlers are of any type.
pub record NatsDirectMessaging {ℓ} (H : Type ℓ) : Type ℓ where
  pub handlers : Dict (List H)
  pub calls : List Call

-- Whether Subscribe and Flush succeed.
pub record Answers : Type 0 where
  pub subscribes : Bool
  pub flushes : Bool

module _ {ℓ} {H : Type ℓ} where
  -- NewNatsDirectMessaging
  abbrev pub new_nats_direct_messaging : NatsDirectMessaging H
  new_nats_direct_messaging = record { handlers = []; calls = [] }

  -- What the map gives for a topic, the empty slice for a missing one.
  abbrev pub or_nil : Option (List H) → List H
  or_nil none = []
  or_nil (some hs) = hs

  unfoldable pub handlers_of : Str → Dict (List H) → List H
  handlers_of topic m = or_nil (lookup topic m)

  -- Calling each handler with the message, in their order.
  unfoldable pub call_all : Str → List H → Outcome Failure (List (H × Str))
  call_all message [] = err no_handlers
  call_all message (h ∷ hs) = ok ((h, message) ∷ map (λ g. (g, message)) hs)

  -- SendToSelf
  unfoldable pub send_to_self : Str → Str → NatsDirectMessaging H → Outcome Failure (List (H × Str))
  send_to_self topic message d = call_all message (handlers_of topic d.handlers)

  -- Listen
  unfoldable pub listen :
      Answers → Str → H → NatsDirectMessaging H → NatsDirectMessaging H × Outcome Failure Str
  listen a topic h d =
      if a.subscribes
      then (if a.flushes
          then (
            record {
              handlers = insert topic (handlers_of topic d.handlers ++ (h ∷ [])) d.handlers;
              calls = d.calls ++ (subscribe topic ∷ flush topic ∷ []);
            },
            ok topic,
          )
          else (
            record d {
              calls = d.calls ++ (subscribe topic ∷ flush topic ∷ unsubscribe topic ∷ []);
            },
            err flush_failed,
          ))
      else (record d { calls = d.calls ++ (subscribe topic ∷ []) }, err subscribe_failed)

  -- Unsubscribe, of the subscription that Listen gave.
  unfoldable pub unsubscribe_from : Str → NatsDirectMessaging H → NatsDirectMessaging H
  unsubscribe_from topic d = record d { calls = d.calls ++ (unsubscribe topic ∷ []) }
