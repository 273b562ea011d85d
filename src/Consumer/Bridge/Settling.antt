-- ===== src/Consumer/Bridge/Settling.antt =====
-- How the JetStream consumers of pkg/eventconsumer settle a request.
use mpcium.Base.{
  ◌≡◌, refl, ap, Bool, true, false, not, if◌then◌else◌, Outcome-cases, none, List, [], ◌∷◌, ◌++◌,
  Str, codes, ◌⊎◌, inl, inr, All, ℕ,
}
use mpcium.Registry.{are_peers_ready, are_majority_ready}
use mpcium.Consumer.{unless_cases}
use mpcium.Consumer.Bridge.{
  Act, enqueue, publish_with_reply, in_progress, ack, nak, Poll, reply, no_message, timed_out,
  receive_failed, Failure, Calls, await_reply, enqueue_failure, handle_signing_error,
  handle_keygen_error, forward, handle_signing_request, handle_keygen_request,
}

abbrev pub settles : Act → ℕ
settles (enqueue s p k) = 0
settles (publish_with_reply s i b d) = 0
settles in_progress = 0
settles ack = 1
settles nak = 1

-- The run ends with an acknowledgement, positive or negative, and holds no other.
abbrev pub SettledOnce : List Act → Type 0
SettledOnce [] = ⊥
SettledOnce (a ∷ []) = settles a ≡ 1
SettledOnce (a ∷ b ∷ acts) = (settles a ≡ 0) × SettledOnce (b ∷ acts)

cons-SettledOnce :
    (a : Act) (acts : List Act) → settles a ≡ 0 → SettledOnce acts → SettledOnce (a ∷ acts)
cons-SettledOnce a [] h k = absurd k
cons-SettledOnce a (b ∷ acts) h k = (h, k)

await_reply-SettledOnce : (polls : List Poll) → SettledOnce (await_reply polls)
unfolding await_reply
await_reply-SettledOnce [] = refl
await_reply-SettledOnce (reply ∷ polls) = refl
await_reply-SettledOnce (no_message ∷ polls) = await_reply-SettledOnce polls
await_reply-SettledOnce (timed_out ∷ polls) =
    cons-SettledOnce in_progress _ refl (await_reply-SettledOnce polls)
await_reply-SettledOnce (receive_failed e ∷ polls) = refl

forward-SettledOnce : (k : Calls) (subject : Str) → SettledOnce (forward k subject)
unfolding forward
forward-SettledOnce k subject =
    unless_cases SettledOnce k.subscribe_error _ _ (λ e h. refl)
      (λ h.
        cons-SettledOnce (publish_with_reply subject k.inbox k.request.body k.new_session_id) _ refl
          (unless_cases SettledOnce k.publish_error _ _ (λ e h. refl)
            (λ h. await_reply-SettledOnce k.polls)))

failure-SettledOnce :
    (k : Calls) (subject key code e : Str)
    → SettledOnce (enqueue_failure k subject key code e ++ (ack ∷ []))
unfolding enqueue_failure
failure-SettledOnce k subject key code e =
    let failure : Failure = record {
      wallet_id = k.wallet_id;
      tx_id = k.tx_id;
      network_internal_code = k.network_internal_code;
      error_code = code;
      error_reason = e;
    } in
    elim (Outcome-cases (k.marshal failure)) [
      | inl (p, h) ↦ rw (enqueue_failure, h) (refl, refl)
      | inr (m, h) ↦ rw (enqueue_failure, h) refl
    ]

if_not-SettledOnce :
    (b : Bool) (xs ys : List Act)
    → SettledOnce xs
    → SettledOnce ys
    → SettledOnce (if not b then xs else ys)
if_not-SettledOnce true xs ys hx hy = hy
if_not-SettledOnce false xs ys hx hy = hx

-- Every run of the two handlers, on every branch and however many polls there are, acknowledges the
-- request exactly once, positively or negatively, as its last call.
pub handle_requests-SettledOnce :
    (k : Calls) → SettledOnce (handle_signing_request k) × SettledOnce (handle_keygen_request k)
unfolding handle_signing_request handle_keygen_request handle_signing_error handle_keygen_error
handle_requests-SettledOnce k = (
  unless_cases SettledOnce k.unmarshal_error _ _ (λ e h. failure-SettledOnce k _ _ _ e)
      (λ h.
        if_not-SettledOnce (are_majority_ready k.registry) _ _
          (failure-SettledOnce k _ _ _ k.not_ready_text)
          (forward-SettledOnce k (codes "mpc:sign"))),
  unless_cases SettledOnce k.unmarshal_error _ _ (λ e h. failure-SettledOnce k _ _ _ e)
      (λ h.
        if_not-SettledOnce (are_peers_ready k.registry) _ _ (failure-SettledOnce k _ _ _ _)
          (forward-SettledOnce k (codes "mpc:generate"))),
)

abbrev pub acked : List Act → Bool
acked [] = false
acked (ack ∷ acts) = true
acked (enqueue s p k ∷ acts) = acked acts
acked (publish_with_reply s i b d ∷ acts) = acked acts
acked (in_progress ∷ acts) = acked acts
acked (nak ∷ acts) = acked acts

abbrev pub IsQuiet : Poll → Type 0
IsQuiet p = (p ≡ no_message) ⊎ (p ≡ timed_out)

-- A reply comes in before any failure to receive.
abbrev pub Replied : List Poll → Type 0
Replied polls =
    (before : List Poll) × (after : List Poll) × (polls ≡ before ++ (reply ∷ after))
    × All IsQuiet before

later : (p : Poll) (polls : List Poll) → IsQuiet p → Replied polls → Replied (p ∷ polls)
later p polls q (before, after, e, h) = (p ∷ before, after, ap (λ r. p ∷ r) e, (q, h))

await_reply-Replied : (polls : List Poll) → acked (await_reply polls) ≡ true → Replied polls
unfolding await_reply
await_reply-Replied [] h = cc
await_reply-Replied (reply ∷ polls) h = ([], polls, refl, tt)
await_reply-Replied (no_message ∷ polls) h =
    later no_message polls (inl refl) (await_reply-Replied polls h)
await_reply-Replied (timed_out ∷ polls) h =
    later timed_out polls (inr refl) (await_reply-Replied polls h)
await_reply-Replied (receive_failed e ∷ polls) h = cc

forward-Replied :
    (k : Calls) (subject : Str)
    → acked (forward k subject) ≡ true
    → (k.publish_error ≡ none) × Replied k.polls
unfolding forward
forward-Replied k subject =
    let P : List Act → Type 0 = λ r. acked r ≡ true → (k.publish_error ≡ none) × Replied k.polls in
    unless_cases P k.subscribe_error _ _ (λ e _ h. cc)
      (λ _.
        unless_cases P k.publish_error _ _ (λ e _ h. cc)
          (λ n h. (n, await_reply-Replied k.polls h)))

-- A signing request that can be read, with the majority ready, is acknowledged positively only after
-- it was passed on and a reply came in before any failure to receive: otherwise JetStream delivers
-- it again.
pub handle_signing_request-Replied :
    (k : Calls)
    → k.unmarshal_error ≡ none
    → are_majority_ready k.registry ≡ true
    → acked (handle_signing_request k) ≡ true
    → (k.publish_error ≡ none) × Replied k.polls
unfolding handle_signing_request
handle_signing_request-Replied k u r h =
    forward-Replied k (codes "mpc:sign") (rw (handle_signing_request, u, r) at h)
