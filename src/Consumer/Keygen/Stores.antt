-- ===== src/Consumer/Keygen/Stores.antt =====
-- When handleKeyGenEvent of pkg/eventconsumer/event_consumer.go stores a result.
use mpcium.Base.{
  ℕ, ◌≡◌, refl, ap, ◌&&◌, str_eq, str_eq_iff, ok, arith, ◌∙◌, sym, Bool, true, false, ◌||◌,
  if◌then◌else◌, Outcome-cases, none, List, [], ◌++◌, Str, codes, Dict, inl, inr,
}
use mpcium.Registry.{are_peers_ready}
use mpcium.Node.Sessions.{ecdsa, eddsa, create_keygen_session}
use mpcium.Node.Keygen.{create_keygen_session_ok}
use mpcium.Consumer.{Request, Effect, store, unless, unless_cases}
use mpcium.Consumer.Keygen.{
  Calls, SessionEnd, key_of, success, publish_result, done, failed, is_failed,
  handle_keygen_session_error, end_effects, complete, run_sessions, after_barriers, generate,
  handle_keygen_event,
}
use mpcium.Consumer.Keygen.Checks.{
  any, any-append, any-error, any-publish_result, Checked, true_not_false, handle_keygen_event-any,
}

-- Whether an effect stores this payload for this wallet.
abbrev pub stores : Str → Str → Effect → Bool
stores w p (store wallet_id payload) = str_eq w wallet_id && str_eq p payload
stores w p _ = false

-- What a run has reached before it stores a payload for a wallet.
pub record Finished (k : Calls) (w p : Str) : Type 0 where
  pub wallet : w ≡ k.wallet_id
  pub result : k.marshal (success k.wallet_id (key_of k.ecdsa_end) (key_of k.eddsa_end)) ≡ ok p
  pub all_ready : are_peers_ready k.node.peer_registry ≡ true
  pub barrier : k.barrier_error ≡ none
  pub ecdsa_done : is_failed k.ecdsa_end ≡ false
  pub eddsa_done : is_failed k.eddsa_end ≡ false

only_at_end :
    (f : Effect → Bool) (t a b : Bool) (late rest : List Effect)
    → any f late ≡ false
    → any f (if t then late else if a || b then [] else rest) ≡ true
    → (a ≡ false) × (b ≡ false) × (any f rest ≡ true)
only_at_end f true a b late rest l h = absurd (true_not_false l h)
only_at_end f false true b late rest l h = cc
only_at_end f false false true late rest l h = cc
only_at_end f false false false late rest l h = (refl, refl, h)

module _ (w p : Str) where
  stores-none :
      (k : Calls) (req : Request) (context e : Str)
      → any (stores w p) (handle_keygen_session_error k req context e) ≡ false
  stores-none k req context e = any-error (stores w p) (λ s p k. refl) (λ s p. refl) k req context e

  end_effects-stores :
      (k : Calls) (req : Request) (context : Str) (end : SessionEnd)
      → any (stores w p) (end_effects k req context end) ≡ false
  unfolding end_effects
  end_effects-stores k req context (done key) = refl
  end_effects-stores k req context (failed e) = stores-none k req context e

  after_store :
      (k : Calls) (req : Request) (payload : Str)
      → any (stores w p) (
          unless k.store_error
            (handle_keygen_session_error k req (codes "Failed to store wallet creation result"))
            (publish_result k req payload
              (codes "Failed to publish key generation success message")))
        ≡ false
  after_store k req payload =
      unless_cases (λ r. any (stores w p) r ≡ false) k.store_error _ _
        (λ e h. stores-none k req _ e)
        (λ h. any-publish_result (stores w p) (λ s p k. refl) (λ s p. refl) k req payload _)

  both_equal :
      (wallet_id payload : Str)
      → (str_eq w wallet_id && str_eq p payload) ≡ true
      → (w ≡ wallet_id) × (p ≡ payload)
  both_equal wallet_id payload h = ground (arith, str_eq_iff w wallet_id, str_eq_iff p payload)

  first_true : (a b : Bool) → b ≡ false → (a || b) ≡ true → a ≡ true
  first_true a b e h = ground arith

  complete-stores :
      (k : Calls) (req : Request)
      → any (stores w p) (complete k req) ≡ true
      → (w ≡ k.wallet_id)
        × (k.marshal (success k.wallet_id (key_of k.ecdsa_end) (key_of k.eddsa_end)) ≡ ok p)
  unfolding complete
  complete-stores k req h =
      elim (Outcome-cases
        (k.marshal (success k.wallet_id (key_of k.ecdsa_end) (key_of k.eddsa_end)))) [
          | inr (e, m) ↦ absurd (true_not_false (stores-none k req _ e) (rw (complete, m) at h))
          | inl (payload, m) ↦
              let g : (stores w p (store k.wallet_id payload)
                    || any (stores w p) (
                        unless k.store_error
                          (handle_keygen_session_error k req
                            (codes "Failed to store wallet creation result"))
                          (publish_result k req payload
                            (codes "Failed to publish key generation success message"))))
                  ≡ true =
                rw (complete, m) at h in
              let (wallet, same) =
                both_equal k.wallet_id payload (first_true _ _ (after_store k req payload) g) in
              (wallet, m ∙ ap ok (sym same))
        ]

  after_barriers-stores :
      (k : Calls) (req : Request)
      → any (stores w p) (after_barriers k req) ≡ true
      → (is_failed k.ecdsa_end ≡ false)
        × (is_failed k.eddsa_end ≡ false)
        × (any (stores w p) (complete k req) ≡ true)
  unfolding after_barriers
  after_barriers-stores k req h =
      only_at_end (stores w p) k.timed_out (is_failed k.ecdsa_end) (is_failed k.eddsa_end)
        (handle_keygen_session_error k req (codes "Key generation timed out")
          (codes "keygen session timed out after 30s"))
        (complete k req) (stores-none k req _ _) h

  run_sessions-stores :
      (k : Calls) (req : Request)
      → any (stores w p) (run_sessions k req) ≡ true
      → (k.barrier_error ≡ none) × (any (stores w p) (after_barriers k req) ≡ true)
  unfolding run_sessions
  run_sessions-stores k req =
      let ecdsa_effects = end_effects k req (codes "ECDSA keygen session error") k.ecdsa_end in
      let eddsa_effects = end_effects k req (codes "EdDSA keygen session error") k.eddsa_end in
      let skip : (r : List Effect)
          → any (stores w p) (ecdsa_effects ++ (eddsa_effects ++ r)) ≡ any (stores w p) r =
        λ r.
          any-append (stores w p) ecdsa_effects (eddsa_effects ++ r)
          ∙ rw (end_effects-stores k req (codes "ECDSA keygen session error") k.ecdsa_end) (
              any-append (stores w p) eddsa_effects r
              ∙ rw (end_effects-stores k req (codes "EdDSA keygen session error") k.eddsa_end)
                  refl) in
      unless_cases
        (λ r.
          any (stores w p) (ecdsa_effects ++ (eddsa_effects ++ r)) ≡ true
          → (k.barrier_error ≡ none) × (any (stores w p) (after_barriers k req) ≡ true))
        k.barrier_error (handle_keygen_session_error k req (codes "Peers not ready before keygen"))
        (after_barriers k req)
        (λ e _ h. absurd (
          true_not_false (stores-none k req (codes "Peers not ready before keygen") e)
            (sym (skip _) ∙ h)))
        (λ b h. (b, sym (skip _) ∙ h))

  -- A run stores a payload only under the wallet's id, and only the marshalled success with the keys that
  -- the two sessions ended with; and only where all that is checked before sessions are made was found, all
  -- peers are ready, the barriers were passed, and neither session has ended with an error. A session that
  -- the deadline ends counts as one without an error, and its key may be empty.
  pub handle_keygen_event-Finished :
      (k : Calls) (req : Request) (now : ℕ) (active : Dict ℕ)
      → any (stores w p) (handle_keygen_event k req now active).1 ≡ true
      → Checked k active × Finished k w p
  unfolding generate
  handle_keygen_event-Finished k req now active h =
      let (checked, g) =
        handle_keygen_event-any (stores w p) (λ s p k. refl) (λ s p. refl) k req now active h in
      (
        checked,
        elim (Outcome-cases
            (create_keygen_session k.tss k.node ecdsa k.wallet_id k.mpc_threshold)) [
              | inr (e, j) ↦
                  absurd
                    (true_not_false (stores-none k req _ (k.error_text e)) (rw (generate, j) at g))
              | inl (s, e) ↦
                  elim (Outcome-cases
                    (create_keygen_session k.tss k.node eddsa k.wallet_id k.mpc_threshold)) [
                      | inr (d, j) ↦ absurd (
                          true_not_false (stores-none k req _ (k.error_text d))
                            (rw (generate, e, j) at g))
                      | inl (s', j) ↦
                          let (b, r) = run_sessions-stores k req (rw (generate, e, j) at g) in
                          let (x, y, c) = after_barriers-stores k req r in
                          let (wallet, result) = complete-stores k req c in
                          record {
                            wallet = wallet;
                            result = result;
                            all_ready =
                                (create_keygen_session_ok k.tss k.node ecdsa k.wallet_id
                                  k.mpc_threshold s e).0;
                            barrier = b;
                            ecdsa_done = x;
                            eddsa_done = y;
                          }
                    ]
            ],
      )
