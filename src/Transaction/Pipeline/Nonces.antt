-- ===== src/Transaction/Pipeline/Nonces.antt =====
-- What Send of wallet-api/pkg/transaction/service.go does to the nonce counter of its address.
use mpcium.Base.{
  ℕ, suc, ◌≡◌, refl, ap, ◌∙◌, Bool, true, false, Bool-cases, inl, inr, if◌then◌else◌, Option, some,
  Option-cases, [], Str, codes, str_eq_refl, Dict, lookup, insert, lookup-insert, Outcome,
  Outcome-cases, ok, err,
}
use mpcium.Transaction.{Status, signing, signed, failed, Ethereum}
use mpcium.Transaction.Tokens.{chain_id, token_address}
use mpcium.Transaction.Counter.{ℤ, pos, take_nonce, next_nonce, release_nonce}
use mpcium.Transaction.Assembly.{assemble_signed_tx}
use mpcium.Transaction.Pipeline.{
  Db, SendRequest, Answers, Failure, BuildResult, key_of, build_with_nonce, build_erc20_transfer,
  release, update_row, update_status, save_signed_rlp, save_tx_hash, erc20_tx, send_after_build,
  insert_draft, broadcast_signed, send_signature, send_built, send,
}
use mpcium.Transaction.Pipeline

-- The outcomes after which the nonce is not given back: success, and the errors between the nonce and
-- the draft, of the update to the status signing, of a cancelled context, of the assembly and of the
-- broadcast.
abbrev pub consumed {ℓ} : {A : Type ℓ} → Outcome Failure A → Bool
consumed (ok a) = true
consumed (err Pipeline.pack_failed) = true
consumed (err Pipeline.marshal_failed) = true
consumed (err Pipeline.update_failed) = true
consumed (err Pipeline.context_done) = true
consumed (err (Pipeline.assemble_failed e)) = true
consumed (err (Pipeline.broadcast_failed e)) = true
consumed (err _) = false

module _ (ans : Answers) where
  update_status-counters :
      (id : Str) (st : Status) (text : Str) (db : Db)
      → (update_status ans id st text db).counters ≡ db.counters
  unfolding update_status update_row
  update_status-counters id st text db = elim (Bool-cases (ans.updates st)) [
    | inl e ↦ rw (update_status, e) refl
    | inr e ↦ rw (update_status, e) refl
  ]

  save_signed_rlp-counters :
      (id rlp : Str) (db : Db) → (save_signed_rlp ans id rlp db).counters ≡ db.counters
  unfolding save_signed_rlp update_row
  save_signed_rlp-counters id rlp db = elim (Bool-cases ans.saves_signed) [
    | inl e ↦ rw (save_signed_rlp, e) refl
    | inr e ↦ rw (save_signed_rlp, e) refl
  ]

  save_tx_hash-counters :
      (id hash : Str) (db : Db) → (save_tx_hash ans id hash db).counters ≡ db.counters
  unfolding save_tx_hash update_row
  save_tx_hash-counters id hash db = elim (Bool-cases ans.saves_hash) [
    | inl e ↦ rw (save_tx_hash, e) refl
    | inr e ↦ rw (save_tx_hash, e) refl
  ]

-- The counter is `n` again where the nonce was given back, and one more where it was consumed.
abbrev pub Settled : Str → ℕ → Db × Outcome Failure Str → Type 0
Settled key n (db, r) = lookup key db.counters ≡ some (if consumed r then pos (suc n) else pos n)

module _ (eth : Ethereum) (ans : Answers) (req : SendRequest) (n : ℕ)
    (answers : ans.redis ≡ true) where
  abbrev key : Str
  key = key_of eth req

  -- An update of the status keeps the counter.
  by_status :
      (id : Str) (st : Status) (text : Str) (db : Db) {z : Option ℤ}
      → lookup key db.counters ≡ z
      → lookup key (update_status ans id st text db).counters ≡ z
  by_status id st text db h = ap (lookup key) (update_status-counters ans id st text db) ∙ h

  release-counter :
      (db : Db)
      → lookup key db.counters ≡ some (pos (suc n))
      → lookup key (release eth ans req db).counters ≡ some (pos n)
  unfolding release release_nonce
  release-counter db h =
      rw (answers, h) (lookup-insert key key (pos n) db.counters ∙ rw (str_eq_refl key) refl)

  broadcast_signed-Settled :
      (id rlp : Str) (db : Db)
      → lookup key db.counters ≡ some (pos (suc n))
      → Settled key n (broadcast_signed ans id rlp db)
  unfolding broadcast_signed
  broadcast_signed-Settled id rlp db h = elim (Outcome-cases (ans.broadcasts rlp)) [
    | inl (hash, e) ↦
        rw (broadcast_signed, e)
          (by_status _ _ _ _ (
            ap (lookup key)
              (save_tx_hash-counters ans id hash _ ∙ save_signed_rlp-counters ans id rlp db)
            ∙ h))
    | inr (f, e) ↦
        rw (broadcast_signed, e)
          (by_status _ _ _ _ (ap (lookup key) (save_signed_rlp-counters ans id rlp db) ∙ h))
  ]

  send_signature-Settled :
      (built : BuildResult) (id : Str) (db : Db)
      → lookup key db.counters ≡ some (pos (suc n))
      → Settled key n (send_signature eth ans req built id db)
  unfolding send_signature
  send_signature-Settled built id db h = by_waiting ans.waited refl
    where
      by_waiting :
          (w : Pipeline.Waited)
          → ans.waited ≡ w
          → Settled key n (send_signature eth ans req built id db)
      by_waiting Pipeline.timed_out e =
          rw (send_signature, e)
            (release-counter (update_status ans id failed (codes "signing timeout") db)
              (by_status id failed (codes "signing timeout") db h))
      by_waiting Pipeline.cancelled e = rw (send_signature, e) h
      by_waiting (Pipeline.refused reason) e =
          rw (send_signature, e)
            (release-counter (update_status ans id failed reason db)
              (by_status id failed reason db h))
      by_waiting (Pipeline.signature r s recovery) e =
          elim (Outcome-cases
            (assemble_signed_tx eth built.unsigned_rlp r s recovery built.tx.chain_id)) [
              | inr (f, k) ↦
                  rw (send_signature, e, k)
                    (by_status id failed (codes "assembler") (update_status ans id signed [] db)
                      (by_status id signed [] db h))
              | inl (rlp, k) ↦
                  rw (send_signature, e, k)
                    (broadcast_signed-Settled id rlp (update_status ans id signed [] db)
                      (by_status id signed [] db h))
            ]

  send_built-Settled :
      (built : BuildResult) (db : Db)
      → lookup key db.counters ≡ some (pos (suc n))
      → Settled key n (send_built eth ans req built db)
  unfolding send_built insert_draft
  send_built-Settled built db h =
      let marked : Str → Db =
        λ id. update_status ans id signing [] (insert_draft ans req built.unsigned_rlp id db) in
      let kept : (id : Str) → lookup key (marked id).counters ≡ some (pos (suc n)) =
        λ id. by_status id signing [] (insert_draft ans req built.unsigned_rlp id db) h in
      elim (Option-cases ans.inserted) [
        | inl e ↦ rw (send_built, e) (release-counter db h)
        | inr (id, e) ↦ elim (Bool-cases (ans.updates signing)) [
          | inr u ↦ rw (send_built, e, u) h
          | inl u ↦ elim (Option-cases ans.submit_error) [
            | inr (f, k) ↦
                rw (send_built, e, u, k)
                  (release-counter (update_status ans id failed f (marked id))
                    (by_status id failed f (marked id) (kept id)))
            | inl k ↦
                rw (send_built, e, u, k) (send_signature-Settled built id (marked id) (kept id))
          ]
        ]
      ]

  -- The counter after BuildERC20Transfer.
  abbrev Taken : Dict ℤ × Outcome Failure BuildResult → Type 0
  Taken (counters, ok built) = lookup key counters ≡ some (pos (suc n))
  Taken (counters, err e) =
      lookup key counters ≡ some (if consumed {A = Str} (err e) then pos (suc n) else pos n)

  next_nonce-taken :
      (counters : Dict ℤ)
      → lookup key counters ≡ some (pos n)
      → next_nonce ans.redis ans.pending_nonce key counters
        ≡ (insert key (pos (suc n)) counters, ok n)
  unfolding next_nonce take_nonce
  next_nonce-taken counters h = rw (next_nonce, answers, h, take_nonce, h, answers) refl

  with_nonce-Taken :
      (counters : Dict ℤ) (id : ℕ) (address : Str)
      → lookup key counters ≡ some (pos (suc n))
      → Taken (counters, build_with_nonce eth ans req id address n)
  unfolding build_with_nonce
  with_nonce-Taken counters id address h =
      elim (Option-cases (eth.pack_transfer (eth.hex_to_address req.to_address) req.amount)) [
        | inl e ↦ rw (build_with_nonce, e) h
        | inr (calldata, e) ↦
            elim (Option-cases (eth.marshal_binary (erc20_tx ans.gas_tip id address n calldata))) [
              | inl m ↦ rw (build_with_nonce, e, m) h
              | inr (rlp, m) ↦ rw (build_with_nonce, e, m) h
            ]
      ]

  build_erc20_transfer-Taken :
      (counters : Dict ℤ)
      → lookup key counters ≡ some (pos n)
      → Taken (build_erc20_transfer eth ans req counters)
  unfolding build_erc20_transfer
  build_erc20_transfer-Taken counters h = elim (Option-cases (chain_id req.chain)) [
    | inl c ↦ rw (build_erc20_transfer, c) h
    | inr (id, c) ↦ elim (Bool-cases ans.dials) [
      | inr d ↦ rw (build_erc20_transfer, c, d) h
      | inl d ↦ elim (Option-cases (token_address req.chain req.token)) [
        | inl a ↦ rw (build_erc20_transfer, c, d, a) h
        | inr (address, a) ↦
            rw (build_erc20_transfer, c, d, a, next_nonce-taken counters h)
              (with_nonce-Taken (insert key (pos (suc n)) counters) id (eth.hex_to_address address)
                (lookup-insert key key (pos (suc n)) counters ∙ rw (str_eq_refl key) refl))
      ]
    ]
  ]

  send_after_build-Settled :
      (db : Db) (r : Dict ℤ × Outcome Failure BuildResult)
      → Taken r
      → Settled key n (send_after_build eth ans req db r)
  unfolding send_after_build
  send_after_build-Settled db (counters, ok built) h =
      send_built-Settled built (record db { counters = counters }) h
  send_after_build-Settled db (counters, err e) h = h

  -- With a counter in Redis, which answers: after Send it is one more than before when the hash is
  -- returned, and also after an error of the packing, of the unsigned form, of the status signing, of a
  -- cancelled context, of the assembly and of the broadcast; after every other error it is as before.
  pub send-Settled :
      (db : Db) → lookup key db.counters ≡ some (pos n) → Settled key n (send eth ans req db)
  unfolding send
  send-Settled db h = send_after_build-Settled db _ (build_erc20_transfer-Taken db.counters h)
