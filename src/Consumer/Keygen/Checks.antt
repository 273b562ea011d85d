-- ===== src/Consumer/Keygen/Checks.antt =====
-- When handleKeyGenEvent of pkg/eventconsumer/event_consumer.go starts sessions.
use mpcium.Base.{
  ℕ, ◌≡◌, refl, ap, ◌∙◌, sym, ◌≢◌, Bool, true, false, ◌||◌, Bool-cases, Option-cases, Outcome-cases,
  none, some, List, [], ◌∷◌, ◌++◌, Str, codes, Dict, lookup, inl, inr, arith,
}
use mpcium.Event.{is_empty, get_error_code_from_error}
use mpcium.Registry.{are_peers_ready}
use mpcium.Node.Sessions.{ecdsa, create_keygen_session}
use mpcium.Node.Keygen.{create_keygen_session_ok}
use mpcium.Consumer.{
  Request, Effect, enqueue, publish, init, sign, store, unless_cases, send_reply_to_remove_msg,
  session_key, try_add_session_new, try_add_session_known,
}
use mpcium.Consumer.Keygen.{
  Calls, failure, Stored, handle_keygen_session_error, publish_result, after_adding, generate,
  guarded, replay_or_generate, handle_keygen_event, enqueue_result, found, key_not_found,
  read_failed,
}

abbrev pub any : (Effect → Bool) → List Effect → Bool
any q [] = false
any q (e ∷ es) = q e || any q es

pub any-append :
    (q : Effect → Bool) (xs ys : List Effect) → any q (xs ++ ys) ≡ (any q xs || any q ys)
any-append q [] ys = refl
any-append q (x ∷ xs) ys = ground (arith, any-append q xs ys)

-- Tests for the calls of Init.
abbrev pub is_init : Effect → Bool
is_init (enqueue s p k) = false
is_init (publish s p) = false
is_init (init t) = true
is_init (sign t) = false
is_init (store w p) = false

-- What a run has checked before it makes sessions.
pub record Checked (k : Calls) (active : Dict ℕ) : Type 0 where
  pub unmarshalled : k.unmarshal_error ≡ none
  pub verified : k.verify_error ≡ none
  pub authorized : k.authorize_error ≡ none
  pub nothing_stored : (payload : Str) → k.stored ≢ found (some payload)
  pub no_session : lookup (session_key k.wallet_id (codes "keygen")) active ≡ none

pub true_not_false : {b : Bool} → b ≡ false → b ≡ true → ⊥
true_not_false e h = cc

module _ (q : Effect → Bool) (enqueues : (s p k : Str) → q (enqueue s p k) ≡ false)
    (publishes : (s p : Str) → q (publish s p) ≡ false) (k : Calls) (req : Request) where
  any-send_reply : any q (send_reply_to_remove_msg req) ≡ false
  unfolding send_reply_to_remove_msg
  any-send_reply = elim (Bool-cases (is_empty req.reply)) [
    | inl e ↦ rw e refl
    | inr e ↦ rw (e, publishes req.reply req.body) refl
  ]

  pub any-error : (context e : Str) → any q (handle_keygen_session_error k req context e) ≡ false
  unfolding handle_keygen_session_error enqueue_result
  any-error context e =
      elim (Outcome-cases (
        k.marshal
          (failure k.wallet_id (get_error_code_from_error e) (context ++ (codes ": " ++ e))))) [
            | inl (p, h) ↦ rw (handle_keygen_session_error, h, enqueues _ p _, any-send_reply) refl
            | inr (m, h) ↦ rw (handle_keygen_session_error, h) refl
          ]

  pub any-publish_result :
      (payload context : Str) → any q (publish_result k req payload context) ≡ false
  unfolding publish_result enqueue_result
  any-publish_result payload context = rw (enqueues _ payload _) (
      unless_cases (λ r. any q r ≡ false) (k.enqueue_error payload) _ _ (λ e h. any-error context e)
        (λ h. any-send_reply))

  guarded-any :
      (now : ℕ) (active : Dict ℕ)
      → any q (guarded k req now active).1 ≡ true
      → (lookup (session_key k.wallet_id (codes "keygen")) active ≡ none)
        × (any q (generate k req) ≡ true)
  unfolding guarded after_adding
  guarded-any now active h =
      elim (Option-cases (lookup (session_key k.wallet_id (codes "keygen")) active)) [
        | inl e ↦ (
          e,
          ap (λ r. any q (after_adding k req r).1)
                (sym (try_add_session_new now k.wallet_id (codes "keygen") active e))
              ∙ h,
        )
        | inr (_, e) ↦ absurd (
            true_not_false
              (ap (λ r. any q (after_adding k req r).1)
                  (try_add_session_known now k.wallet_id (codes "keygen") active e)
                ∙ any-error _ _)
              h)
      ]

  replay_or_generate-any :
      (now : ℕ) (active : Dict ℕ) (s : Stored)
      → any q (replay_or_generate k req now active s).1 ≡ true
      → ((payload : Str) → s ≢ found (some payload))
        × (lookup (session_key k.wallet_id (codes "keygen")) active ≡ none)
        × (any q (generate k req) ≡ true)
  unfolding replay_or_generate
  replay_or_generate-any now active (read_failed e) h = absurd (true_not_false (any-error _ e) h)
  replay_or_generate-any now active key_not_found h =
      let g = guarded-any now active h in (λ p e. ground arith, g.0, g.1)
  replay_or_generate-any now active (found none) h =
      let g = guarded-any now active h in (λ p e. ground arith, g.0, g.1)
  replay_or_generate-any now active (found (some p)) h =
      absurd (true_not_false (any-publish_result p _) h)

  pub handle_keygen_event-any :
      (now : ℕ) (active : Dict ℕ)
      → any q (handle_keygen_event k req now active).1 ≡ true
      → Checked k active × (any q (generate k req) ≡ true)
  unfolding handle_keygen_event
  handle_keygen_event-any now active =
      let P : Dict ℕ × List Effect → Type 0 =
        λ r. any q r.1 ≡ true → Checked k active × (any q (generate k req) ≡ true) in
      unless_cases P k.unmarshal_error _ _ (λ e _ h. absurd (true_not_false (any-error _ e) h))
        (λ u.
          unless_cases P k.verify_error _ _ (λ e _ h. absurd (true_not_false (any-error _ e) h))
            (λ v.
              unless_cases P k.authorize_error _ _
                (λ e _ h. absurd (true_not_false (any-error _ e) h))
                (λ a h.
                  let (none_stored, free, g) = replay_or_generate-any now active k.stored h in
                  (
                    record {
                      unmarshalled = u;
                      verified = v;
                      authorized = a;
                      nothing_stored = none_stored;
                      no_session = free;
                    },
                    g,
                  ))))

-- A run starts sessions only for a message that was read, verified and authorized, while no result
-- is stored for the wallet, no generation is active for it, and all peers are ready.
pub handle_keygen_event-Checked :
    (k : Calls) (req : Request) (now : ℕ) (active : Dict ℕ)
    → any is_init (handle_keygen_event k req now active).1 ≡ true
    → Checked k active × (are_peers_ready k.node.peer_registry ≡ true)
unfolding generate
handle_keygen_event-Checked k req now active h =
    let (checked, g) =
      handle_keygen_event-any is_init (λ s p k. refl) (λ s p. refl) k req now active h in
    (
      checked,
      elim (Outcome-cases (create_keygen_session k.tss k.node ecdsa k.wallet_id k.mpc_threshold)) [
        | inl (s, e) ↦
            (create_keygen_session_ok k.tss k.node ecdsa k.wallet_id k.mpc_threshold s e).0
        | inr (e, j) ↦ absurd (
            true_not_false
              (any-error is_init (λ s p k. refl) (λ s p. refl) k req _ (k.error_text e))
              (rw (generate, j) at g))
      ],
    )
