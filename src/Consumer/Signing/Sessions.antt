-- ===== src/Consumer/Signing/Sessions.antt =====
-- When handleSigningEvent of pkg/eventconsumer/event_consumer.go starts a session.
use mpcium.Base.{
  ℕ, ◌+◌, ◌≤◌, ◌≡◌, refl, ap, ◌∙◌, true, false, Bool-cases, Option-cases, Outcome-cases, none, some,
  List, [], ◌∷◌, ◌++◌, Str, codes, str_eq_refl, Dict, lookup, lookup-insert, inl, inr, arith,
}
use mpcium.Event.{is_empty, get_error_code_from_error}
use mpcium.Consumer.{
  Request, Effect, enqueue, publish, init, sign, store, unless_cases, send_reply_to_remove_msg,
  session_key, try_add_session, try_add_session_new, try_add_session_known,
}
use mpcium.Consumer.Keygen.Checks.{any, is_init}
use mpcium.Consumer.Signing.{
  Calls, Failure, handle_signing_session_error, after_adding, handle_signing_event, SessionEvent,
  reported, signed, signing_events,
}

-- The message was read, verified and authorized.
pub record Accepted (k : Calls) : Type 0 where
  pub unmarshalled : k.unmarshal_error ≡ none
  pub verified : k.verify_error ≡ none
  pub authorized : k.authorize_error ≡ none

handle_signing_event-Accepted :
    (k : Calls) (req : Request) (now : ℕ) (active : Dict ℕ)
    → Accepted k
    → handle_signing_event k req now active
      ≡ after_adding k req (try_add_session now k.wallet_id k.tx_id active)
unfolding handle_signing_event
handle_signing_event-Accepted k req now active a =
    rw (a.unmarshalled, a.verified, a.authorized) refl

send_reply-inits : (req : Request) → any is_init (send_reply_to_remove_msg req) ≡ false
unfolding send_reply_to_remove_msg
send_reply-inits req = elim (Bool-cases (is_empty req.reply)) [
  | inl e ↦ rw e refl
  | inr e ↦ rw e refl
]

error-inits :
    (k : Calls) (req : Request) (context e : Str)
    → any is_init (handle_signing_session_error k req context e) ≡ false
unfolding handle_signing_session_error
error-inits k req context e =
    let failure : Failure = record {
      network_internal_code = k.network_internal_code;
      wallet_id = k.wallet_id;
      tx_id = k.tx_id;
      error_code = get_error_code_from_error e;
      error_reason = context ++ (codes ": " ++ e);
    } in
    elim (Outcome-cases (k.marshal failure)) [
      | inl (p, h) ↦ rw (handle_signing_session_error, h) (send_reply-inits req)
      | inr (m, h) ↦ rw (handle_signing_session_error, h) refl
    ]

-- A session is started only for a message that was read, verified and authorized, and whose wallet
-- and transaction are not in the table of active sessions.
pub handle_signing_event-inits :
    (k : Calls) (req : Request) (now : ℕ) (active : Dict ℕ)
    → any is_init (handle_signing_event k req now active).1 ≡ true
    → Accepted k × (lookup (session_key k.wallet_id k.tx_id) active ≡ none)
unfolding handle_signing_event after_adding
handle_signing_event-inits k req now active =
    let P : Dict ℕ × List Effect → Type 0 = λ r.
      any is_init r.1 ≡ true
      → Accepted k × (lookup (session_key k.wallet_id k.tx_id) active ≡ none) in
    unless_cases P k.unmarshal_error _ _ (λ e _ h. cc)
      (λ u.
        unless_cases P k.verify_error _ _ (λ e _ h. cc)
          (λ v.
            unless_cases P k.authorize_error _ _ (λ e _ h. cc)
              (λ a h. (
                record { unmarshalled = u; verified = v; authorized = a },
                elim (Option-cases (lookup (session_key k.wallet_id k.tx_id) active)) [
                  | inl e ↦ e
                  | inr (_, e) ↦ absurd (
                      cc (
                        ap (λ r. any is_init (after_adding k req r).1)
                            (try_add_session_known now k.wallet_id k.tx_id active e),
                        error-inits k req _ _,
                        h,
                      ))
                ],
              ))))

known-Accepted :
    (k : Calls) (req : Request) (now t : ℕ) (active : Dict ℕ)
    → Accepted k
    → lookup (session_key k.wallet_id k.tx_id) active ≡ some t
    → ((handle_signing_event k req now active).0 ≡ active)
      × (any is_init (handle_signing_event k req now active).1 ≡ false)
unfolding after_adding
known-Accepted k req now t active a e =
    let run =
      handle_signing_event-Accepted k req now active a
      ∙ ap (after_adding k req) (try_add_session_known now k.wallet_id k.tx_id active e) in
    (ap (λ r. r.0) run, ap (λ r. any is_init r.1) run ∙ error-inits k req _ _)

adds-Accepted :
    (k : Calls) (req : Request) (now : ℕ) (active : Dict ℕ)
    → Accepted k
    → (t : ℕ) × (lookup (session_key k.wallet_id k.tx_id) (handle_signing_event k req now active).0
        ≡ some t)
unfolding after_adding
adds-Accepted k req now active a =
    let key = session_key k.wallet_id k.tx_id in
    elim (Option-cases (lookup key active)) [
      | inl e ↦ (
        now,
        ap (λ r. lookup key r.0)
              (handle_signing_event-Accepted k req now active a
                ∙ ap (after_adding k req) (try_add_session_new now k.wallet_id k.tx_id active e))
            ∙ lookup-insert key key now active
            ∙ rw (str_eq_refl key) refl,
      )
      | inr (t, e) ↦ (t, ap (λ m. lookup key m) (known-Accepted k req now t active a e).0 ∙ e)
    ]

-- Of two accepted requests for one wallet and transaction, with no cleanup between them, the second
-- starts no session and changes nothing in the table, however the first one ended.
pub handle_signing_event_again :
    (k k' : Calls) (req req' : Request) (now now' : ℕ) (active : Dict ℕ)
    → Accepted k
    → Accepted k'
    → k'.wallet_id ≡ k.wallet_id
    → k'.tx_id ≡ k.tx_id
    → let after = (handle_signing_event k req now active).0 in
      ((handle_signing_event k' req' now' after).0 ≡ after)
      × (any is_init (handle_signing_event k' req' now' after).1 ≡ false)
handle_signing_event_again k k' req req' now now' active a a' w x =
    let (t, e) = adds-Accepted k req now active a in
    known-Accepted k' req' now' t (handle_signing_event k req now active).0 a' (rw (w, x) e)

-- The number of enqueued results.
abbrev pub count_results : List Effect → ℕ
count_results [] = 0
count_results (enqueue s p k ∷ es) = 1 + count_results es
count_results (publish s p ∷ es) = count_results es
count_results (init t ∷ es) = count_results es
count_results (sign t ∷ es) = count_results es
count_results (store w p ∷ es) = count_results es

count_results-append :
    (xs ys : List Effect) → count_results (xs ++ ys) ≡ count_results xs + count_results ys
count_results-append [] ys = omega arith
count_results-append (enqueue s p k ∷ xs) ys = omega (arith, count_results-append xs ys)
count_results-append (publish s p ∷ xs) ys = count_results-append xs ys
count_results-append (init t ∷ xs) ys = count_results-append xs ys
count_results-append (sign t ∷ xs) ys = count_results-append xs ys
count_results-append (store w p ∷ xs) ys = count_results-append xs ys

count_results-send_reply : (req : Request) → count_results (send_reply_to_remove_msg req) ≡ 0
unfolding send_reply_to_remove_msg
count_results-send_reply req = elim (Bool-cases (is_empty req.reply)) [
  | inl e ↦ rw e refl
  | inr e ↦ rw e refl
]

count_results-error :
    (k : Calls) (req : Request) (context e : Str)
    → count_results (handle_signing_session_error k req context e) ≤ 1
unfolding handle_signing_session_error
count_results-error k req context e =
    let failure : Failure = record {
      network_internal_code = k.network_internal_code;
      wallet_id = k.wallet_id;
      tx_id = k.tx_id;
      error_code = get_error_code_from_error e;
      error_reason = context ++ (codes ": " ++ e);
    } in
    elim (Outcome-cases (k.marshal failure)) [
      | inl (p, h) ↦
          rw (handle_signing_session_error, h, count_results-send_reply req) (omega arith)
      | inr (m, h) ↦ rw (handle_signing_session_error, h) (omega arith)
    ]

quiet_after :
    (k : Calls) (req : Request) (events : List SessionEvent)
    → count_results (signing_events k req false events) ≡ 0
unfolding signing_events
quiet_after k req [] = refl
quiet_after k req (reported e ∷ events) = quiet_after k req events
quiet_after k req (signed ∷ events) =
    count_results-append (send_reply_to_remove_msg req) (signing_events k req false events)
    ∙ rw (count_results-send_reply req, quiet_after k req events) refl

-- Whatever errors a running session reports, and however often it signs, at most one error result is
-- enqueued for it.
pub count_results-signing_events :
    (k : Calls) (req : Request) (events : List SessionEvent)
    → count_results (signing_events k req true events) ≤ 1
unfolding signing_events
count_results-signing_events k req [] = omega arith
count_results-signing_events k req (reported e ∷ events) =
    let context = codes "Failed to sign tx" in
    omega (
      arith,
      count_results-error k req context e,
      quiet_after k req events,
      count_results-append (handle_signing_session_error k req context e)
          (signing_events k req false events),
    )
count_results-signing_events k req (signed ∷ events) = omega (
  arith,
  count_results-send_reply req,
  quiet_after k req events,
  count_results-append (send_reply_to_remove_msg req) (signing_events k req false events),
)
