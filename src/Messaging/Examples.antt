-- ===== src/Messaging/Examples.antt =====
-- A session on a topic that is closed, and a later one on the same topic.
use mpcium.Base.{ℕ, ◌≡◌, refl, Bool, true, false, List, [], ◌∷◌, Str, codes, ok}
use mpcium.Messaging.{Answers, send_to_self, new_nats_direct_messaging}
use mpcium.Messaging.Handlers.{Operation, listening, unsubscribing, run, listened, run-send_to_self}

abbrev works : Answers
works = record { subscribes = true; flushes = true }

abbrev broken_flush : Answers
broken_flush = record { subscribes = true; flushes = false }

abbrev history : List (Operation ℕ)
history =
    listening works (codes "t") 1
    ∷ unsubscribing (codes "t")
    ∷ listening works (codes "u") 7
    ∷ listening broken_flush (codes "t") 5
    ∷ listening works (codes "t") 2
    ∷ []

-- The handler of the closed session is called too.
run-send_to_self_example :
    send_to_self (codes "t") (codes "m") (run history new_nats_direct_messaging)
    ≡ ok ((1, codes "m") ∷ (2, codes "m") ∷ [])
unfolding mpcium.Messaging.call_all listened mpcium.Base.str_eq
run-send_to_self_example = run-send_to_self (codes "t") (codes "m") history
