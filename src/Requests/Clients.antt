-- ===== src/Requests/Clients.antt =====
-- Histories of a client of the wallet API: requests and results of both kinds.
use mpcium.Base.{
  ◌≡◌, ◌≢◌, refl, ◌∙◌, Bool, true, false, some, List, [], ◌∷◌, Str, str_eq, str_eq_iff, str_eq_refl,
  lookup, insert, lookup-insert, lookup-erase, Bool-cases, Option-cases, inl, inr,
}
use mpcium.Requests.{
  Channel, Waiting, Client, none_waiting, submit, handle, create_wallet, sign_transaction,
  handle_keygen_result, handle_sign_result,
}
use mpcium.Requests.Routing.{IsRouted, SentOnce, SentRight, submit-IsRouted, handle-IsRouted}

-- What happens to a client: a request, with whether publishing it succeeds, or a result.
pub data Happening {ℓ} (K S : Type ℓ) : Type ℓ where
  wallet_requested transaction_requested : Str → Bool → Happening K S
  keygen_result : K → Happening K S
  sign_result : S → Happening K S

module _ {ℓ} {K S : Type ℓ} (wallet_id : K → Str) (tx_id : S → Str) where
  abbrev pub happen : Happening K S → Client K S → Client K S
  happen (wallet_requested id ok) c = (create_wallet id ok c).0
  happen (transaction_requested id ok) c = (sign_transaction id ok c).0
  happen (keygen_result e) c = handle_keygen_result wallet_id e c
  happen (sign_result e) c = handle_sign_result tx_id e c

  unfoldable pub run : List (Happening K S) → Client K S → Client K S
  run [] c = c
  run (h ∷ hs) c = run hs (happen h c)

  BothRouted : Client K S → Type ℓ
  BothRouted c = IsRouted wallet_id c.keygen_wait × IsRouted tx_id c.signing_wait

  happen-BothRouted : (h : Happening K S) (c : Client K S) → BothRouted c → BothRouted (happen h c)
  unfolding create_wallet sign_transaction handle_keygen_result handle_sign_result BothRouted
  happen-BothRouted (wallet_requested id ok) c (k, s) =
      (submit-IsRouted wallet_id id ok c.keygen_wait k, s)
  happen-BothRouted (transaction_requested id ok) c (k, s) =
      (k, submit-IsRouted tx_id id ok c.signing_wait s)
  happen-BothRouted (keygen_result e) c (k, s) = (handle-IsRouted wallet_id e c.keygen_wait k, s)
  happen-BothRouted (sign_result e) c (k, s) = (k, handle-IsRouted tx_id e c.signing_wait s)

  run-BothRouted :
      (hs : List (Happening K S)) (c : Client K S) → BothRouted c → BothRouted (run hs c)
  unfolding run
  run-BothRouted [] c b = b
  run-BothRouted (h ∷ hs) c b = run-BothRouted hs (happen h c) (happen-BothRouted h c b)

  abbrev pub new_client : Client K S
  new_client = record { keygen_wait = none_waiting; signing_wait = none_waiting }

  new_client-BothRouted : BothRouted new_client
  unfolding BothRouted lookup
  new_client-BothRouted = (
    record {
      waiting = λ k c h. cc;
      apart = λ k j c d h g e. cc;
      below = tt;
      once = tt;
      right = tt;
    },
    record {
      waiting = λ k c h. cc;
      apart = λ k j c d h g e. cc;
      below = tt;
      once = tt;
      right = tt;
    },
  )

  -- Whatever requests and results come in, in any order and with any ids: no channel is sent more than
  -- one result, so that no send on a channel of capacity one blocks, and each result that is sent goes
  -- to a channel that was made for its id.
  pub run-new_client-SentOnce :
      (hs : List (Happening K S))
      → SentOnce wallet_id (run hs new_client).keygen_wait.sent
        × SentRight wallet_id (run hs new_client).keygen_wait.sent
        × SentOnce tx_id (run hs new_client).signing_wait.sent
        × SentRight tx_id (run hs new_client).signing_wait.sent
  unfolding BothRouted
  run-new_client-SentOnce hs =
      let (k, s) = run-BothRouted hs new_client new_client-BothRouted in
      (k.once, k.right, s.once, s.right)

  -- Nothing about the transaction.
  abbrev pub Spares : Str → List (Happening K S) → Type 0
  Spares id [] = Unit
  Spares id (wallet_requested j ok ∷ hs) = Spares id hs
  Spares id (transaction_requested j ok ∷ hs) = (j ≢ id) × Spares id hs
  Spares id (keygen_result e ∷ hs) = Spares id hs
  Spares id (sign_result e ∷ hs) = (tx_id e ≢ id) × Spares id hs

  other-false : (j id : Str) → j ≢ id → str_eq j id ≡ false
  other-false j id h = elim (Bool-cases (str_eq j id)) [
    | inl e ↦ absurd (h ((str_eq_iff j id).0 e))
    | inr e ↦ e
  ]

  lookup-submit_other :
      (id j : Str) (ok : Bool) (w : Waiting S)
      → j ≢ id
      → lookup id (submit j ok w).0.waits ≡ lookup id w.waits
  unfolding submit
  lookup-submit_other id j true w h =
      lookup-insert j id (record { number = w.made; id = j }) w.waits ∙ rw (other-false j id h) refl
  lookup-submit_other id j false w h =
      lookup-erase j id (insert j (record { number = w.made; id = j }) w.waits)
      ∙ rw (other-false j id h) (
          lookup-insert j id (record { number = w.made; id = j }) w.waits
          ∙ rw (other-false j id h) refl)

  lookup-handle_other :
      (id : Str) (e : S) (w : Waiting S)
      → tx_id e ≢ id
      → lookup id (handle tx_id e w).waits ≡ lookup id w.waits
  unfolding handle
  lookup-handle_other id e w h = elim (Option-cases (lookup (tx_id e) w.waits)) [
    | inl absent ↦ rw (handle, absent) refl
    | inr (c, found) ↦
        rw (handle, found)
          (lookup-erase (tx_id e) id w.waits ∙ rw (other-false (tx_id e) id h) refl)
  ]

  lookup-run :
      (id : Str) (hs : List (Happening K S)) (c : Client K S)
      → Spares id hs
      → lookup id (run hs c).signing_wait.waits ≡ lookup id c.signing_wait.waits
  unfolding run create_wallet sign_transaction handle_keygen_result handle_sign_result
  lookup-run id [] c s = refl
  lookup-run id (wallet_requested j ok ∷ hs) c s = lookup-run id hs _ s
  lookup-run id (transaction_requested j ok ∷ hs) c s =
      lookup-run id hs _ s.1 ∙ lookup-submit_other id j ok c.signing_wait s.0
  lookup-run id (keygen_result e ∷ hs) c s = lookup-run id hs _ s
  lookup-run id (sign_result e ∷ hs) c s =
      lookup-run id hs _ s.1 ∙ lookup-handle_other id e c.signing_wait s.0

  -- SignTransaction gives a new channel when publishing succeeds, and the first result for the
  -- transaction is sent on that channel, whatever happens before it that is not about the transaction.
  pub handle_sign_result-sign_transaction :
      (c : Client K S) (id : Str) (hs : List (Happening K S)) (e : S)
      → Spares id hs
      → tx_id e ≡ id
      → (ch : Channel) × ((sign_transaction id true c).1 ≡ some ch)
        × ((handle_sign_result tx_id e (run hs (sign_transaction id true c).0)).signing_wait.sent
            ≡ (ch, e) ∷ (run hs (sign_transaction id true c).0).signing_wait.sent)
  unfolding sign_transaction handle_sign_result
  handle_sign_result-sign_transaction c id hs e s i =
      let ch : Channel = record { number = c.signing_wait.made; id = id } in
      let found : lookup (tx_id e) (run hs (sign_transaction id true c).0).signing_wait.waits
          ≡ some ch =
        rw i (
          lookup-run id hs (sign_transaction id true c).0 s
          ∙ (lookup-insert id id ch c.signing_wait.waits ∙ rw (str_eq_refl id) refl)) in
      (ch, refl, rw (handle, found) refl)
