-- ===== src/Results/TimedOut.antt =====
-- A request whose deliveries are used up, from the advisory to the channel of the wallet API.
use mpcium.Base.{
  ℕ, ◌≡◌, refl, ap, ◌∙◌, true, Option, some, List, [], ◌∷◌, ◌++◌, Str, codes, str_eq_refl,
}
use mpcium.Event.{signing_result_subject, scoped_operation_id}
use mpcium.Requests
use mpcium.Requests.{Channel, Client, handle_sign_result}
use mpcium.Requests.Clients.{Happening, run, Spares, handle_sign_result-sign_transaction}
use mpcium.Results.{
  SigningResultEvent, Json, Message, header, enqueue, Settlement, ack, dequeue, on_sign_result,
  settle, signing_result_subscription_subject, timed_out, enqueue_timed_out, handle_advisory,
}

abbrev pub tx_id : SigningResultEvent → Str
tx_id e = e.tx_id

-- What OnSignResult of the wallet API's client does with a message of its queue.
abbrev pub deliver :
    {K : Type 0}
    → Json
    → Message
    → Client K SigningResultEvent
    → Client K SigningResultEvent × Settlement
deliver j = dequeue (on_sign_result j (handle_sign_result tx_id))

-- An advisory on the signing stream whose message is found and read.
enqueued :
    (j : Json) (get_msg : Str → ℕ → Option Message) (advisory text : Str) (seq : ℕ)
    (failed : Message) (e : SigningResultEvent)
    → j.unmarshal_advisory advisory ≡ some (codes "mpc-signing", seq)
    → get_msg (codes "mpc-signing") seq ≡ some failed
    → j.unmarshal_result failed.body ≡ some e
    → j.marshal_result (timed_out e) ≡ some text
    → (m : Message) × (handle_advisory j get_msg advisory ≡ m ∷ [])
      × (m.body ≡ text)
      × (m.subject ≡ signing_result_subscription_subject (header (codes "ClientID") failed))
unfolding handle_advisory enqueue_timed_out enqueue signing_result_subscription_subject
enqueued j get_msg advisory text seq failed e a g r m = (
  enqueue (signing_result_subject (header (codes "ClientID") failed)) text (
      some (
        codes "mpc.mpc_signing_result."
        ++ scoped_operation_id (header (codes "ClientID") failed) e.tx_id)),
  rw (handle_advisory, a, str_eq_refl (codes "mpc-signing"), g, enqueue_timed_out, r, m) refl,
  refl,
  refl,
)

deliver-read :
    {K : Type 0} (j : Json) (m : Message) (c : Client K SigningResultEvent) (e : SigningResultEvent)
    → j.unmarshal_result m.body ≡ some e
    → deliver j m c ≡ (handle_sign_result tx_id e c, ack)
unfolding dequeue on_sign_result settle
deliver-read j m c e read = rw (dequeue, on_sign_result, read) refl

-- When the deliveries of a signing request are used up, and its message is found and read: one result is
-- enqueued, under the subject that the client of the request subscribes to. The wallet API's client, which
-- has had nothing else about the transaction since SignTransaction, acknowledges the result and sends it on
-- the channel that SignTransaction gave, as an error that says that the deliveries are used up.
pub handle_advisory-deliver :
    {K : Type 0} (wallet_id : K → Str) (j : Json) (get_msg : Str → ℕ → Option Message)
    (advisory text : Str) (seq : ℕ) (failed : Message) (e : SigningResultEvent)
    (c : Client K SigningResultEvent) (hs : List (Happening K SigningResultEvent))
    → j.unmarshal_advisory advisory ≡ some (codes "mpc-signing", seq)
    → get_msg (codes "mpc-signing") seq ≡ some failed
    → j.unmarshal_result failed.body ≡ some e
    → j.marshal_result (timed_out e) ≡ some text
    → Spares wallet_id tx_id e.tx_id hs
    → (m : Message) × (ch : Channel) × (handle_advisory j get_msg advisory ≡ m ∷ [])
      × (m.subject ≡ signing_result_subscription_subject (header (codes "ClientID") failed))
      × ((Requests.sign_transaction e.tx_id true c).1 ≡ some ch)
      × ((deliver j m (run wallet_id tx_id hs (Requests.sign_transaction e.tx_id true c).0)).1
          ≡ ack)
      × ((deliver j m (
            run wallet_id tx_id hs
              (Requests.sign_transaction e.tx_id true c).0)).0.signing_wait.sent
          ≡ (ch, timed_out e)
            ∷ (run wallet_id tx_id hs
                (Requests.sign_transaction e.tx_id true c).0).signing_wait.sent)
      × ((timed_out e).result_type ≡ codes "error")
      × ((timed_out e).error_code ≡ codes "ERROR_MAX_DELIVERY_ATTEMPTS")
unfolding dequeue on_sign_result timed_out
handle_advisory-deliver wallet_id j get_msg advisory text seq failed e c hs a g r m s =
    let (msg, sent, body, subject) = enqueued j get_msg advisory text seq failed e a g r m in
    let (ch, given, delivered) =
      handle_sign_result-sign_transaction wallet_id tx_id c e.tx_id hs (timed_out e) s refl in
    let read : j.unmarshal_result msg.body ≡ some (timed_out e) =
      rw body (j.unmarshal-marshal_result (timed_out e) text m) in
    let handled = deliver-read j msg _ (timed_out e) read in
    (
      msg,
      ch,
      sent,
      subject,
      given,
      ap (λ p. p.1) handled,
      ap (λ p. p.0.signing_wait.sent) handled ∙ delivered,
      refl,
      refl,
    )
