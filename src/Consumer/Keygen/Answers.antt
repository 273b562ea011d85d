-- ===== src/Consumer/Keygen/Answers.antt =====
-- What handleKeyGenEvent of pkg/eventconsumer/event_consumer.go leaves behind: the table of active
-- sessions, and the answer to the request.
use mpcium.Base.{
  append_nil, ℕ, ◌≡◌, refl, ap, ◌∙◌, Bool, true, false, ◌||◌, if◌then◌else◌, Bool-cases,
  Option-cases, Outcome-cases, none, some, List, [], ◌∷◌, ◌++◌, Str, codes, str_eq, str_eq_refl,
  Dict, lookup, insert, erase, ok, inl, inr, arith,
}
use mpcium.Event.{is_empty, get_error_code_from_error}
use mpcium.Consumer.{
  Request, Effect, publish, init, store, unless_cases, send_reply_to_remove_msg, session_key,
  try_add_session_new, try_add_session_known, remove_session,
}
use mpcium.Node.Sessions.{ecdsa, eddsa, create_keygen_session}
use mpcium.Consumer.Keygen.{
  Calls, Result, failure, success, key_of, after_adding, Stored, SessionEnd, done, failed,
  is_failed, handle_keygen_session_error, publish_result, end_effects, complete, run_sessions,
  after_barriers, generate, guarded, replay_or_generate, handle_keygen_event, enqueue_result, found,
  key_not_found, read_failed,
}

erase-insert : (k : Str) (v : ℕ) (m : Dict ℕ) → lookup k m ≡ none → erase k (insert k v m) ≡ m
unfolding lookup insert erase
erase-insert k v [] h = rw (str_eq_refl k) refl
erase-insert k v ((j, w) ∷ m) h = elim (Bool-cases (str_eq j k)) [
  | inl e ↦ absurd (ground arith)
  | inr e ↦ rw (e, e) (ap (λ r. (j, w) ∷ r) (erase-insert k v m (rw e at h)))
]

guarded-active :
    (k : Calls) (req : Request) (now : ℕ) (active : Dict ℕ) → (guarded k req now active).0 ≡ active
unfolding guarded remove_session
guarded-active k req now active =
    elim (Option-cases (lookup (session_key k.wallet_id (codes "keygen")) active)) [
      | inl e ↦
          ap (λ r. (after_adding k req r).0)
            (try_add_session_new now k.wallet_id (codes "keygen") active e)
          ∙ erase-insert (session_key k.wallet_id (codes "keygen")) now active e
      | inr (_, e) ↦
          ap (λ r. (after_adding k req r).0)
            (try_add_session_known now k.wallet_id (codes "keygen") active e)
    ]

replay_or_generate-active :
    (k : Calls) (req : Request) (now : ℕ) (active : Dict ℕ) (s : Stored)
    → (replay_or_generate k req now active s).0 ≡ active
unfolding replay_or_generate
replay_or_generate-active k req now active (read_failed e) = refl
replay_or_generate-active k req now active key_not_found = guarded-active k req now active
replay_or_generate-active k req now active (found none) = guarded-active k req now active
replay_or_generate-active k req now active (found (some p)) = refl

-- Every run of the handler, on every branch, leaves the table of active sessions as it was.
handle_keygen_event-active :
    (k : Calls) (req : Request) (now : ℕ) (active : Dict ℕ)
    → (handle_keygen_event k req now active).0 ≡ active
unfolding handle_keygen_event
handle_keygen_event-active k req now active =
    let P : Dict ℕ × List Effect → Type 0 = λ r. r.0 ≡ active in
    unless_cases P k.unmarshal_error _ _ (λ e h. refl)
      (λ h.
        unless_cases P k.verify_error _ _ (λ e h. refl)
          (λ h.
            unless_cases P k.authorize_error _ _ (λ e h. refl)
              (λ h. replay_or_generate-active k req now active k.stored)))

-- The last call of a run is the answer to the request.
abbrev pub Answered : Request → List Effect → Type 0
Answered req es = (before : List Effect) × (es ≡ before ++ (publish req.reply req.body ∷ []))

module _ (k : Calls) (req : Request) (inbox : is_empty req.reply ≡ false)
    (total : (r : Result) → (p : Str) × (k.marshal r ≡ ok p)) where
  send_reply-Answered : Answered req (send_reply_to_remove_msg req)
  unfolding send_reply_to_remove_msg
  send_reply-Answered = ([], rw inbox refl)

  cons-Answered : (e : Effect) (es : List Effect) → Answered req es → Answered req (e ∷ es)
  cons-Answered e es (b, h) = (e ∷ b, ap (λ x. e ∷ x) h)

  append-Answered : (xs es : List Effect) → Answered req es → Answered req (xs ++ es)
  append-Answered [] es h = h
  append-Answered (x ∷ xs) es h = cons-Answered x (xs ++ es) (append-Answered xs es h)

  error-Answered : (context e : Str) → Answered req (handle_keygen_session_error k req context e)
  unfolding handle_keygen_session_error
  error-Answered context e =
      let (p, h) =
        total (failure k.wallet_id (get_error_code_from_error e) (context ++ (codes ": " ++ e))) in
      rw (handle_keygen_session_error, h)
        (cons-Answered (enqueue_result k req p) _ send_reply-Answered)

  publish_result-Answered :
      (payload context : Str) → Answered req (publish_result k req payload context)
  unfolding publish_result
  publish_result-Answered payload context = cons-Answered (enqueue_result k req payload) _ (
      unless_cases (Answered req) (k.enqueue_error payload) _ _ (λ e h. error-Answered context e)
        (λ h. send_reply-Answered))

  complete-Answered : Answered req (complete k req)
  unfolding complete
  complete-Answered =
      let (p, h) = total (success k.wallet_id (key_of k.ecdsa_end) (key_of k.eddsa_end)) in
      rw (complete, h)
        (cons-Answered (store k.wallet_id p) _ (
          unless_cases (Answered req) k.store_error _ _ (λ e h. error-Answered _ e)
            (λ h. publish_result-Answered p _)))

  end_effects-Answered :
      (context : Str) (end : SessionEnd)
      → is_failed end ≡ true
      → Answered req (end_effects k req context end)
  unfolding end_effects
  end_effects-Answered context (done key) h = cc
  end_effects-Answered context (failed e) h = error-Answered context e

  suffix-Answered : (xs es : List Effect) → Answered req xs → es ≡ [] → Answered req (xs ++ es)
  suffix-Answered xs es (b, h) e = (b, rw (e, h) (append_nil _))

  finished-Answered :
      (xs ys : List Effect) (a b timed_out : Bool) (late rest : List Effect)
      → (a ≡ true → Answered req xs)
      → (b ≡ true → Answered req ys)
      → (b ≡ false → ys ≡ [])
      → Answered req late
      → Answered req rest
      → Answered req (xs ++ (ys ++ (if timed_out then late else if a || b then [] else rest)))
  finished-Answered xs ys a b true late rest ha hb nb hl hr =
      append-Answered xs _ (append-Answered ys late hl)
  finished-Answered xs ys true true false late rest ha hb nb hl hr =
      append-Answered xs _ (suffix-Answered ys [] (hb refl) refl)
  finished-Answered xs ys false true false late rest ha hb nb hl hr =
      append-Answered xs _ (suffix-Answered ys [] (hb refl) refl)
  finished-Answered xs ys false false false late rest ha hb nb hl hr =
      append-Answered xs _ (append-Answered ys rest hr)
  finished-Answered xs ys true false false late rest ha hb nb hl hr =
      suffix-Answered xs _ (ha refl) (rw (nb refl) refl)

  end_effects-done :
      (context : Str) (end : SessionEnd)
      → is_failed end ≡ false
      → end_effects k req context end ≡ []
  unfolding end_effects
  end_effects-done context (done key) h = refl
  end_effects-done context (failed e) h = cc

  run_sessions-Answered : Answered req (run_sessions k req)
  unfolding run_sessions after_barriers
  run_sessions-Answered =
      let ecdsa_effects = end_effects k req (codes "ECDSA keygen session error") k.ecdsa_end in
      let eddsa_effects = end_effects k req (codes "EdDSA keygen session error") k.eddsa_end in
      unless_cases (λ r. Answered req (ecdsa_effects ++ (eddsa_effects ++ r))) k.barrier_error
        (handle_keygen_session_error k req (codes "Peers not ready before keygen"))
        (after_barriers k req)
        (λ e h. append-Answered ecdsa_effects _ (
          append-Answered eddsa_effects _
            (error-Answered (codes "Peers not ready before keygen") e)))
        (λ h.
          finished-Answered ecdsa_effects eddsa_effects (is_failed k.ecdsa_end)
            (is_failed k.eddsa_end) k.timed_out
            (handle_keygen_session_error k req (codes "Key generation timed out")
              (codes "keygen session timed out after 30s"))
            (complete k req) (end_effects-Answered _ k.ecdsa_end)
            (end_effects-Answered _ k.eddsa_end) (end_effects-done _ k.eddsa_end)
            (error-Answered _ _) complete-Answered)

  generate-Answered : Answered req (generate k req)
  unfolding generate
  generate-Answered =
      elim (Outcome-cases (create_keygen_session k.tss k.node ecdsa k.wallet_id k.mpc_threshold)) [
        | inr (e, h) ↦ rw (generate, h) (error-Answered _ (k.error_text e))
        | inl (s, h) ↦
            elim (Outcome-cases
              (create_keygen_session k.tss k.node eddsa k.wallet_id k.mpc_threshold)) [
                | inr (e, j) ↦ rw (generate, h, j) (error-Answered _ (k.error_text e))
                | inl (s', j) ↦
                    rw (generate, h, j)
                      (cons-Answered (init ecdsa) _
                        (cons-Answered (init eddsa) _ run_sessions-Answered))
              ]
      ]

  after_adding-Answered : (r : Dict ℕ × Bool) → Answered req (after_adding k req r).1
  unfolding after_adding
  after_adding-Answered (added, true) = generate-Answered
  after_adding-Answered (added, false) = error-Answered _ _

  replay_or_generate-Answered :
      (now : ℕ) (active : Dict ℕ) (s : Stored)
      → Answered req (replay_or_generate k req now active s).1
  unfolding replay_or_generate guarded
  replay_or_generate-Answered now active (read_failed e) = error-Answered _ e
  replay_or_generate-Answered now active key_not_found = after_adding-Answered _
  replay_or_generate-Answered now active (found none) = after_adding-Answered _
  replay_or_generate-Answered now active (found (some p)) = publish_result-Answered p _

  -- A request with a reply subject is answered on every branch, and the answer is the last call of
  -- the run, where results can be marshalled.
  pub handle_keygen_event-Answered :
      (now : ℕ) (active : Dict ℕ) → Answered req (handle_keygen_event k req now active).1
  unfolding handle_keygen_event
  handle_keygen_event-Answered now active =
      let P : Dict ℕ × List Effect → Type 0 = λ r. Answered req r.1 in
      unless_cases P k.unmarshal_error _ _ (λ e h. error-Answered _ e)
        (λ h.
          unless_cases P k.verify_error _ _ (λ e h. error-Answered _ e)
            (λ h.
              unless_cases P k.authorize_error _ _ (λ e h. error-Answered _ e)
                (λ h. replay_or_generate-Answered now active k.stored)))
