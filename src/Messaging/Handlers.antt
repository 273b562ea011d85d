-- ===== src/Messaging/Handlers.antt =====
-- What SendToSelf calls after any history of the operations of pkg/messaging/point2point.go.
use mpcium.Base.{
  ◌≡◌, refl, sym, ap, ◌∙◌, Bool-cases, ◌&&◌, if◌then◌else◌, List, [], ◌∷◌, ◌++◌, Str, str_eq,
  str_eq_iff, inl, inr, Dict, lookup, insert, lookup-insert, append_nil, append_assoc,
}
use mpcium.Messaging.{
  NatsDirectMessaging, Answers, new_nats_direct_messaging, or_nil, handlers_of, call_all,
  send_to_self, listen, unsubscribe_from,
}

-- A call of Listen with what NATS answers, or of Unsubscribe.
pub data Operation {ℓ} (H : Type ℓ) : Type ℓ where
  listening : Answers → Str → H → Operation H
  unsubscribing : Str → Operation H

module _ {ℓ} {H : Type ℓ} where
  unfoldable pub run : List (Operation H) → NatsDirectMessaging H → NatsDirectMessaging H
  run [] d = d
  run (listening a topic h ∷ os) d = run os (listen a topic h d).0
  run (unsubscribing topic ∷ os) d = run os (unsubscribe_from topic d)

  -- The handlers of a topic that were ever listened with successfully, unsubscribed or not.
  unfoldable pub listened : Str → List (Operation H) → List H
  listened topic [] = []
  listened topic (listening a t h ∷ os) =
      let rest = listened topic os in
      if a.subscribes && a.flushes && str_eq t topic then h ∷ rest else rest
  listened topic (unsubscribing t ∷ os) = listened topic os

  handlers_of-insert :
      (topic t : Str) (hs : List H) (m : Dict (List H))
      → handlers_of topic (insert t hs m) ≡ (if str_eq t topic then hs else handlers_of topic m)
  unfolding handlers_of
  handlers_of-insert topic t hs m =
      ap or_nil (lookup-insert t topic hs m)
      ∙ elim (Bool-cases (str_eq t topic)) [ inl e ↦ rw (e) refl | inr e ↦ rw (e) refl ]

  handlers_of-insert_append :
      (topic t : Str) (h : H) (m : Dict (List H))
      → handlers_of topic (insert t (handlers_of t m ++ (h ∷ [])) m)
        ≡ handlers_of topic m ++ (if str_eq t topic then h ∷ [] else [])
  handlers_of-insert_append topic t h m =
      handlers_of-insert topic t (handlers_of t m ++ (h ∷ [])) m
      ∙ elim (Bool-cases (str_eq t topic)) [
        | inl q ↦ rw (q) (ap (λ k. handlers_of k m ++ (h ∷ [])) ((str_eq_iff t topic).0 q))
        | inr q ↦ rw (q) (sym (append_nil (handlers_of topic m)))
      ]

  -- One call of Listen adds its handler to its topic, when it succeeds.
  handlers_of-listen :
      (topic t : Str) (a : Answers) (h : H) (d : NatsDirectMessaging H)
      → handlers_of topic (listen a t h d).0.handlers
        ≡ handlers_of topic d.handlers ++ listened topic (listening a t h ∷ [])
  unfolding listen listened
  handlers_of-listen topic t a h d = elim (Bool-cases a.subscribes) [
    | inr e ↦ rw (e) (sym (append_nil (handlers_of topic d.handlers)))
    | inl e ↦ elim (Bool-cases a.flushes) [
      | inr e' ↦ rw (e, e') (sym (append_nil (handlers_of topic d.handlers)))
      | inl e' ↦ rw (e, e') (handlers_of-insert_append topic t h d.handlers)
    ]
  ]

  listened-cons :
      (topic t : Str) (a : Answers) (h : H) (os : List (Operation H))
      → listened topic (listening a t h ∷ os)
        ≡ listened topic (listening a t h ∷ []) ++ listened topic os
  unfolding listened
  listened-cons topic t a h os = elim (Bool-cases (a.subscribes && a.flushes && str_eq t topic)) [
    | inl e ↦ rw (e) refl
    | inr e ↦ rw (e) refl
  ]

  handlers_of-run :
      (topic : Str) (os : List (Operation H)) (d : NatsDirectMessaging H)
      → handlers_of topic (run os d).handlers ≡ handlers_of topic d.handlers ++ listened topic os
  unfolding run listened unsubscribe_from
  handlers_of-run topic [] d = sym (append_nil _)
  handlers_of-run topic (unsubscribing t ∷ os) d = handlers_of-run topic os (unsubscribe_from t d)
  handlers_of-run topic (listening a t h ∷ os) d =
      handlers_of-run topic os (listen a t h d).0
      ∙ ap (λ hs. hs ++ listened topic os) (handlers_of-listen topic t a h d)
      ∙ append_assoc (handlers_of topic d.handlers) (listened topic (listening a t h ∷ []))
          (listened topic os)
      ∙ ap (λ hs. handlers_of topic d.handlers ++ hs) (sym (listened-cons topic t a h os))

  -- After any history of Listen, with whatever NATS answers, and of Unsubscribe, SendToSelf calls
  -- with the message exactly the handlers of all successful calls of Listen on the topic, in their
  -- order, those that were unsubscribed since included; it fails if there are none.
  pub run-send_to_self :
      (topic message : Str) (os : List (Operation H))
      → send_to_self topic message (run os new_nats_direct_messaging)
        ≡ call_all message (listened topic os)
  unfolding send_to_self handlers_of lookup
  run-send_to_self topic message os =
      ap (call_all message) (handlers_of-run topic os new_nats_direct_messaging)
