-- ===== src/Requests.antt =====
-- The client of the wallet API, wallet-api/pkg/mpc/client.go: the channels on which results are waited for.
pub mod Routing
pub mod Clients
mod Examples
use mpcium.Base.{
  ℕ, ◌+◌, Bool, if◌then◌else◌, Option, none, some, List, [], ◌∷◌, Str, Dict, lookup, insert, erase,
}

-- A channel of capacity one, with the id of the wallet or transaction that it was made for.
pub record Channel : Type 0 where
  pub number : ℕ
  pub id : Str

-- A map of waiters, how many channels were made for it, and what was sent on them, the latest first.
pub record Waiting {ℓ} (E : Type ℓ) : Type ℓ where
  pub waits : Dict Channel
  pub made : ℕ
  pub sent : List (Channel × E)

-- Client: keygenWait and signingWait.
pub record Client {ℓ} (K S : Type ℓ) : Type ℓ where
  pub keygen_wait : Waiting K
  pub signing_wait : Waiting S

abbrev pub none_waiting {ℓ} : {E : Type ℓ} → Waiting E
none_waiting = record { waits = []; made = 0; sent = [] }

-- A waiter for an id, withdrawn if publishing the request fails.
unfoldable pub submit {ℓ} : {E : Type ℓ} → Str → Bool → Waiting E → Waiting E × Option Channel
submit id publishes w =
    let c : Channel = record { number = w.made; id = id } in
    let waits = insert id c w.waits in
    if publishes
    then (record w { waits = waits; made = w.made + 1 }, some c)
    else (record w { waits = erase id waits; made = w.made + 1 }, none)

-- A result goes to the waiter for its id, which is removed.
unfoldable pub handle {ℓ} : {E : Type ℓ} → (E → Str) → E → Waiting E → Waiting E
handle id_of e w = elim (lookup (id_of e) w.waits) [
  | none ↦ w
  | some c ↦ record w { waits = erase (id_of e) w.waits; sent = (c, e) ∷ w.sent }
]

module _ {ℓ} {K S : Type ℓ} where
  -- CreateWallet
  unfoldable pub create_wallet : Str → Bool → Client K S → Client K S × Option Channel
  unfolding submit
  create_wallet wallet_id publishes c =
      let (w, channel) = submit wallet_id publishes c.keygen_wait in
      (record c { keygen_wait = w }, channel)

  -- SignTransaction
  unfoldable pub sign_transaction : Str → Bool → Client K S → Client K S × Option Channel
  unfolding submit
  sign_transaction tx_id publishes c =
      let (w, channel) = submit tx_id publishes c.signing_wait in
      (record c { signing_wait = w }, channel)

  -- handleKeygenResult
  unfoldable pub handle_keygen_result : (K → Str) → K → Client K S → Client K S
  unfolding handle
  handle_keygen_result wallet_id e c = record c { keygen_wait = handle wallet_id e c.keygen_wait }

  -- handleSignResult
  unfoldable pub handle_sign_result : (S → Str) → S → Client K S → Client K S
  unfolding handle
  handle_sign_result tx_id e c = record c { signing_wait = handle tx_id e c.signing_wait }
