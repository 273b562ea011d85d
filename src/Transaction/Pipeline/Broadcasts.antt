-- ===== src/Transaction/Pipeline/Broadcasts.antt =====
-- What Send of wallet-api/pkg/transaction/service.go gives to BroadcastTx.
use mpcium.Base.{
  ℕ, ◌≡◌, refl, ap, ◌∙◌, ◌⊎◌, inl, inr, Bool-cases, some, Option-cases, List, [], ◌∷◌, Str, codes,
  Dict, Outcome, Outcome-cases, ok, err,
}
use mpcium.Transaction.{Status, signing, signed, failed, broadcast, Ethereum}
use mpcium.Transaction.Tokens.{chain_id, token_address}
use mpcium.Transaction.Counter.{ℤ, next_nonce}
use mpcium.Transaction.Assembly.{assemble_signed_tx-marshalled, assemble_signed_tx, sig65}
use mpcium.Transaction.Pipeline.{
  Db, SendRequest, Answers, Failure, BuildResult, Waited, key_of, erc20_tx, build_with_nonce,
  build_erc20_transfer, release, update_row, update_status, save_signed_rlp, save_tx_hash,
  insert_draft, broadcast_signed, send_signature, send_built, send_after_build, send,
}
use mpcium.Transaction.Pipeline

module _ (ans : Answers) where
  pub status-broadcasts :
      (id : Str) (st : Status) (text : Str) (db : Db)
      → (update_status ans id st text db).broadcasts ≡ db.broadcasts
  unfolding update_status update_row
  status-broadcasts id st text db = elim (Bool-cases (ans.updates st)) [
    | inl e ↦ rw (update_status, e) refl
    | inr e ↦ rw (update_status, e) refl
  ]

  signed_rlp-broadcasts :
      (id rlp : Str) (db : Db) → (save_signed_rlp ans id rlp db).broadcasts ≡ db.broadcasts
  unfolding save_signed_rlp update_row
  signed_rlp-broadcasts id rlp db = elim (Bool-cases ans.saves_signed) [
    | inl e ↦ rw (save_signed_rlp, e) refl
    | inr e ↦ rw (save_signed_rlp, e) refl
  ]

  hash-broadcasts :
      (id hash : Str) (db : Db) → (save_tx_hash ans id hash db).broadcasts ≡ db.broadcasts
  unfolding save_tx_hash update_row
  hash-broadcasts id hash db = elim (Bool-cases ans.saves_hash) [
    | inl e ↦ rw (save_tx_hash, e) refl
    | inr e ↦ rw (save_tx_hash, e) refl
  ]

  pub broadcast_signed-broadcasts :
      (id rlp : Str) (db : Db) → (broadcast_signed ans id rlp db).0.broadcasts ≡ rlp ∷ db.broadcasts
  unfolding broadcast_signed
  broadcast_signed-broadcasts id rlp db =
      let saved = save_signed_rlp ans id rlp db in
      let sent : Db = record saved { broadcasts = rlp ∷ saved.broadcasts } in
      let one = ap (λ bs. rlp ∷ bs) (signed_rlp-broadcasts id rlp db) in
      elim (Outcome-cases (ans.broadcasts rlp)) [
        | inr (f, e) ↦ rw (broadcast_signed, e) (status-broadcasts id failed f sent ∙ one)
        | inl (hash, e) ↦
            rw (broadcast_signed, e)
              (status-broadcasts id broadcast [] (save_tx_hash ans id hash sent)
                ∙ hash-broadcasts id hash sent
                ∙ one)
      ]

module _ (eth : Ethereum) (ans : Answers) (req : SendRequest) where
  -- Nothing was broadcast, or the assembly of what was built with the signature that came.
  abbrev Assembled : BuildResult → List Str → List Str → Type 0
  Assembled built before after =
      (after ≡ before)
      ⊎ ((rlp : Str) × (r : Str) × (s : Str) × (recovery : Str) × (ans.waited
            ≡ Pipeline.signature r s recovery)
          × (assemble_signed_tx eth built.unsigned_rlp r s recovery built.tx.chain_id ≡ ok rlp)
          × (after ≡ rlp ∷ before))

  send_signature-Assembled :
      (built : BuildResult) (id : Str) (db : Db)
      → Assembled built db.broadcasts (send_signature eth ans req built id db).0.broadcasts
  unfolding send_signature release
  send_signature-Assembled built id db = by_waiting ans.waited refl
    where
      by_waiting :
          (w : Waited)
          → ans.waited ≡ w
          → Assembled built db.broadcasts (send_signature eth ans req built id db).0.broadcasts
      by_waiting Pipeline.timed_out e =
          inl
            (rw (send_signature, e) (status-broadcasts ans id failed (codes "signing timeout") db))
      by_waiting Pipeline.cancelled e = inl (rw (send_signature, e) refl)
      by_waiting (Pipeline.refused reason) e =
          inl (rw (send_signature, e) (status-broadcasts ans id failed reason db))
      by_waiting (Pipeline.signature r s recovery) e =
          let after = update_status ans id signed [] db in
          elim (Outcome-cases
            (assemble_signed_tx eth built.unsigned_rlp r s recovery built.tx.chain_id)) [
              | inr (f, k) ↦ inl (
                  rw (send_signature, e, k)
                    (status-broadcasts ans id failed (codes "assembler") after
                      ∙ status-broadcasts ans id signed [] db))
              | inl (rlp, k) ↦ inr (
                rlp,
                r,
                s,
                recovery,
                e,
                k,
                rw (send_signature, e, k)
                    (broadcast_signed-broadcasts ans id rlp after
                      ∙ ap (λ bs. rlp ∷ bs) (status-broadcasts ans id signed [] db)),
              )
            ]

  send_built-Assembled :
      (built : BuildResult) (db : Db)
      → Assembled built db.broadcasts (send_built eth ans req built db).0.broadcasts
  unfolding send_built release insert_draft
  send_built-Assembled built db = elim (Option-cases ans.inserted) [
    | inl e ↦ inl (rw (send_built, e) refl)
    | inr (id, e) ↦
        let drafted = insert_draft ans req built.unsigned_rlp id db in
        let marked = update_status ans id signing [] drafted in
        let same : marked.broadcasts ≡ db.broadcasts =
          status-broadcasts ans id signing [] drafted in
        elim (Bool-cases (ans.updates signing)) [
          | inr u ↦ inl (rw (send_built, e, u) refl)
          | inl u ↦ elim (Option-cases ans.submit_error) [
            | inr (f, k) ↦
                inl (rw (send_built, e, u, k) (status-broadcasts ans id failed f marked ∙ same))
            | inl k ↦
                rw (send_built, e, u, k) (rw same at (send_signature-Assembled built id marked))
          ]
        ]
  ]

  -- The transaction calls the transfer of the requested token, with the requested receiver and amount, on
  -- the requested chain, and moves no ether; its unsigned form is what is stored.
  abbrev pub IsTransfer : BuildResult → Type 0
  IsTransfer built =
      (id : ℕ) × (address : Str) × (nonce : ℕ) × (calldata : Str) × (chain_id req.chain ≡ some id)
      × (token_address req.chain req.token ≡ some address)
      × (eth.pack_transfer (eth.hex_to_address req.to_address) req.amount ≡ some calldata)
      × (built.tx ≡ erc20_tx ans.gas_tip id (eth.hex_to_address address) nonce calldata)
      × (eth.marshal_binary built.tx ≡ some built.unsigned_rlp)

  abbrev Transfers : Outcome Failure BuildResult → Type 0
  Transfers (ok built) = IsTransfer built
  Transfers (err e) = Unit

  build_with_nonce-Transfers :
      (id nonce : ℕ) (address : Str)
      → chain_id req.chain ≡ some id
      → token_address req.chain req.token ≡ some address
      → Transfers (build_with_nonce eth ans req id (eth.hex_to_address address) nonce)
  unfolding build_with_nonce
  build_with_nonce-Transfers id nonce address c t =
      elim (Option-cases (eth.pack_transfer (eth.hex_to_address req.to_address) req.amount)) [
        | inl e ↦ rw (build_with_nonce, e) tt
        | inr (calldata, e) ↦
            let tx = erc20_tx ans.gas_tip id (eth.hex_to_address address) nonce calldata in
            elim (Option-cases (eth.marshal_binary tx)) [
              | inl m ↦ rw (build_with_nonce, e, m) tt
              | inr (rlp, m) ↦
                  rw (build_with_nonce, e, m) (id, address, nonce, calldata, c, t, e, refl, m)
            ]
      ]

  build_erc20_transfer-Transfers :
      (counters : Dict ℤ) → Transfers (build_erc20_transfer eth ans req counters).1
  unfolding build_erc20_transfer
  build_erc20_transfer-Transfers counters = elim (Option-cases (chain_id req.chain)) [
    | inl c ↦ rw (build_erc20_transfer, c) tt
    | inr (id, c) ↦ elim (Bool-cases ans.dials) [
      | inr d ↦ rw (build_erc20_transfer, c, d) tt
      | inl d ↦ elim (Option-cases (token_address req.chain req.token)) [
        | inl a ↦ rw (build_erc20_transfer, c, d, a) tt
        | inr (address, a) ↦
            elim (Outcome-cases
              (next_nonce ans.redis ans.pending_nonce (key_of eth req) counters).1) [
                | inr (f, n) ↦ rw (build_erc20_transfer, c, d, a, n) tt
                | inl (nonce, n) ↦
                    rw (build_erc20_transfer, c, d, a, n)
                      (build_with_nonce-Transfers id nonce address c a)
              ]
      ]
    ]
  ]

  -- Nothing was broadcast, or the requested transfer with the signature that came.
  abbrev pub SentTransfer : List Str → List Str → Type 0
  SentTransfer before after =
      (after ≡ before)
      ⊎ ((built : BuildResult) × (rlp : Str) × (r : Str) × (s : Str) × (recovery : Str) × IsTransfer
            built
          × (ans.waited ≡ Pipeline.signature r s recovery)
          × (eth.with_signature built.tx.chain_id built.tx (sig65 r s recovery) ≡ some rlp)
          × (after ≡ rlp ∷ before))

  stored :
      {built : BuildResult}
      → IsTransfer built
      → eth.marshal_binary built.tx ≡ some built.unsigned_rlp
  stored (id, address, nonce, calldata, c, a, p, tx, m) = m

  sent_of :
      (built : BuildResult) (before after : List Str)
      → IsTransfer built
      → Assembled built before after
      → SentTransfer before after
  sent_of built before after t (inl e) = inl e
  sent_of built before after t (inr (rlp, r, s, recovery, w, a, e)) = inr (
    built,
    rlp,
    r,
    s,
    recovery,
    t,
    w,
    assemble_signed_tx-marshalled eth built.tx built.unsigned_rlp r s recovery rlp (stored t) a,
    e,
  )

  send_after_build-SentTransfer :
      (db : Db) (r : Dict ℤ × Outcome Failure BuildResult)
      → Transfers r.1
      → SentTransfer db.broadcasts (send_after_build eth ans req db r).0.broadcasts
  unfolding send_after_build
  send_after_build-SentTransfer db (counters, err e) t = inl refl
  send_after_build-SentTransfer db (counters, ok built) t =
      sent_of built db.broadcasts _ t
        (send_built-Assembled built (record db { counters = counters }))

  -- Whatever the calls of a run answer, Send broadcasts at most one transaction, and it is the requested
  -- transfer, with the 65 bytes made of the signature that came for it.
  pub send-SentTransfer : (db : Db) → SentTransfer db.broadcasts (send eth ans req db).0.broadcasts
  unfolding send
  send-SentTransfer db =
      send_after_build-SentTransfer db (build_erc20_transfer eth ans req db.counters)
        (build_erc20_transfer-Transfers db.counters)
