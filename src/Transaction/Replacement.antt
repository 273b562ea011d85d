-- ===== src/Transaction/Replacement.antt =====
-- CancelTx and SpeedUpTx of wallet-api/pkg/transaction/service.go: a transaction that replaces another one.
use mpcium.Base.{
  ℕ, ◌≡◌, refl, ◌∙◌, ◌⊎◌, inl, inr, Bool, true, false, Bool-cases, if◌then◌else◌, str_eq, ◌&&◌,
  Option, none, some, Option-cases, List, [], ◌∷◌, Str, codes, lookup, Outcome, Outcome-cases, ok,
  err,
}
use mpcium.Transaction.{Status, signing, signed, broadcast, failed, Ethereum, FeeTx}
use mpcium.Transaction.Tokens.{chain_id}
use mpcium.Transaction.Assembly.{assemble_signed_tx-marshalled, assemble_signed_tx, sig65, bumped}
use mpcium.Transaction.Pipeline.{
  Row, Db, SendRequest, Answers, Failure, Waited, update_row, update_status, insert_draft,
  broadcast_signed,
}
use mpcium.Transaction.Pipeline
use mpcium.Transaction.Pipeline.Broadcasts.{status-broadcasts, broadcast_signed-broadcasts}

-- `status IN ('broadcast', 'signed')`
abbrev pub is_replaceable : Status → Bool
is_replaceable broadcast = true
is_replaceable signed = true
is_replaceable _ = false

-- The query for the transaction to replace.
unfoldable pub load_row : Str → Str → Db → Option Row
load_row id wallet_id db = elim (lookup id db.rows) [
  | none ↦ none
  | some row ↦
      if str_eq row.wallet_id wallet_id && is_replaceable row.status then some row else none
]

-- The transaction of CancelTx.
unfoldable pub cancel_of : ℕ → Str → FeeTx → FeeTx
unfolding bumped
cancel_of id self_addr orig = record {
  chain_id = id;
  nonce = orig.nonce;
  gas_tip_cap = bumped orig.gas_tip_cap;
  gas_fee_cap = bumped orig.gas_fee_cap;
  gas = 21000;
  to = self_addr;
  value = 0;
  calldata = [];
}

-- The transaction of SpeedUpTx.
unfoldable pub speed_up_of : ℕ → FeeTx → FeeTx
unfolding bumped
speed_up_of id orig = record {
  chain_id = id;
  nonce = orig.nonce;
  gas_tip_cap = bumped orig.gas_tip_cap;
  gas_fee_cap = bumped orig.gas_fee_cap;
  gas = orig.gas;
  to = orig.to;
  value = orig.value;
  calldata = orig.calldata;
}

-- What the two give to insertDraft.
abbrev pub cancel_request : Str → Str → Str → SendRequest
cancel_request wallet_id from_address chain = record {
  wallet_id = wallet_id;
  chain = chain;
  token = codes "USDC";
  to_address = from_address;
  amount = 0;
  from_address = from_address;
}

abbrev pub speed_up_request : Str → Str → Row → SendRequest
speed_up_request wallet_id chain row = record {
  wallet_id = wallet_id;
  chain = chain;
  token = row.token;
  to_address = row.to_address;
  amount = row.amount;
  from_address = [];
}

module _ (eth : Ethereum) (ans : Answers) where
  -- The mark that CancelTx leaves on the transaction that it has replaced.
  unfoldable pub mark_cancelled : Str → Db × Outcome Failure Str → Db × Outcome Failure Str
  unfolding update_row
  mark_cancelled id (db, err e) = (db, err e)
  mark_cancelled id (db, ok hash) = (
    (if ans.marks_original
        then update_row id
            (λ row. record row { status = failed; mpc_error = codes "cancelled_by_user" }) db
        else db),
    ok hash,
  )

  -- The wait for the signature, and the broadcast.
  unfoldable pub sign_replacement : Str → Str → ℕ → Db → Db × Outcome Failure Str
  unfolding update_status assemble_signed_tx broadcast_signed
  sign_replacement id unsigned chain db = elim ans.waited [
    | Pipeline.timed_out ↦ (db, err Pipeline.timeout)
    | Pipeline.cancelled ↦ (db, err Pipeline.context_done)
    | Pipeline.refused reason ↦
        (update_status ans id failed reason db, err (Pipeline.signing_refused reason))
    | Pipeline.signature r s recovery ↦ elim (assemble_signed_tx eth unsigned r s recovery chain) [
      | err e ↦ (db, err (Pipeline.assemble_failed e))
      | ok rlp ↦ broadcast_signed ans id rlp db
    ]
  ]

  -- From the insertion of the new transaction on.
  unfoldable pub submit_unsigned : SendRequest → Str → ℕ → Db → Db × Outcome Failure Str
  unfolding insert_draft update_status sign_replacement
  submit_unsigned req unsigned chain db = elim ans.inserted [
    | none ↦ (db, err Pipeline.insert_failed)
    | some id ↦
        let marked = update_status ans id signing [] (insert_draft ans req unsigned id db) in
        elim ans.submit_error [
          | some e ↦ (update_status ans id failed e marked, err (Pipeline.submit_failed e))
          | none ↦ sign_replacement id unsigned chain marked
        ]
  ]

  -- From MarshalBinary on, whose error is dropped.
  unfoldable pub submit_replacement : SendRequest → FeeTx → Db → Db × Outcome Failure Str
  unfolding submit_unsigned
  submit_replacement req tx db =
      let unsigned : Str = elim (eth.marshal_binary tx) [ none ↦ [] | some rlp ↦ rlp ] in
      submit_unsigned req unsigned tx.chain_id db

  -- CancelTx
  unfoldable pub cancel_tx : Str → Str → Str → Str → Db → Db × Outcome Failure Str
  unfolding load_row chain_id cancel_of submit_replacement mark_cancelled
  cancel_tx id wallet_id from_address chain db = elim (load_row id wallet_id db) [
    | none ↦ (db, err Pipeline.load_failed)
    | some row ↦ elim (eth.unmarshal_binary row.unsigned_rlp) [
      | none ↦ (db, err Pipeline.decode_failed)
      | some orig ↦ elim (chain_id chain) [
        | none ↦ (db, err Pipeline.unknown_chain)
        | some cid ↦ mark_cancelled id (
            submit_replacement (cancel_request wallet_id from_address chain)
              (cancel_of cid (eth.hex_to_address from_address) orig) db)
      ]
    ]
  ]

  -- SpeedUpTx; its second query reads the row that the first one found.
  unfoldable pub speed_up_tx : Str → Str → Str → Db → Db × Outcome Failure Str
  unfolding load_row chain_id speed_up_of submit_replacement
  speed_up_tx id wallet_id chain db = elim (load_row id wallet_id db) [
    | none ↦ (db, err Pipeline.load_failed)
    | some row ↦ elim (eth.unmarshal_binary row.unsigned_rlp) [
      | none ↦ (db, err Pipeline.decode_failed)
      | some orig ↦ elim (chain_id chain) [
        | none ↦ (db, err Pipeline.unknown_chain)
        | some cid ↦
            submit_replacement (speed_up_request wallet_id chain row) (speed_up_of cid orig) db
      ]
    ]
  ]

  -- Nothing was broadcast, or the transaction with the signature that came.
  abbrev Signed : FeeTx → List Str → List Str → Type 0
  Signed tx before after =
      (after ≡ before)
      ⊎ ((rlp : Str) × (r : Str) × (s : Str) × (recovery : Str) × (ans.waited
            ≡ Pipeline.signature r s recovery)
          × (eth.with_signature tx.chain_id tx (sig65 r s recovery) ≡ some rlp)
          × (after ≡ rlp ∷ before))

  sign_replacement-Signed :
      (id unsigned : Str) (tx : FeeTx) (db : Db)
      → eth.marshal_binary tx ≡ some unsigned
      → Signed tx db.broadcasts (sign_replacement id unsigned tx.chain_id db).0.broadcasts
  unfolding sign_replacement
  sign_replacement-Signed id unsigned tx db m = by_waiting ans.waited refl
    where
      by_waiting :
          (w : Waited)
          → ans.waited ≡ w
          → Signed tx db.broadcasts (sign_replacement id unsigned tx.chain_id db).0.broadcasts
      by_waiting Pipeline.timed_out e = inl (rw (sign_replacement, e) refl)
      by_waiting Pipeline.cancelled e = inl (rw (sign_replacement, e) refl)
      by_waiting (Pipeline.refused reason) e =
          inl (rw (sign_replacement, e) (status-broadcasts ans id failed reason db))
      by_waiting (Pipeline.signature r s recovery) e =
          elim (Outcome-cases (assemble_signed_tx eth unsigned r s recovery tx.chain_id)) [
            | inr (f, k) ↦ inl (rw (sign_replacement, e, k) refl)
            | inl (rlp, k) ↦ inr (
              rlp,
              r,
              s,
              recovery,
              e,
              assemble_signed_tx-marshalled eth tx unsigned r s recovery rlp m k,
              rw (sign_replacement, e, k) (broadcast_signed-broadcasts ans id rlp db),
            )
          ]

  marked-broadcasts :
      (req : SendRequest) (unsigned id : Str) (db : Db)
      → (update_status ans id signing [] (insert_draft ans req unsigned id db)).broadcasts
        ≡ db.broadcasts
  unfolding insert_draft
  marked-broadcasts req unsigned id db =
      status-broadcasts ans id signing [] (insert_draft ans req unsigned id db)

  submit_unsigned-Signed :
      (req : SendRequest) (tx : FeeTx) (unsigned : Str) (db : Db)
      → eth.marshal_binary tx ≡ some unsigned
      → Signed tx db.broadcasts (submit_unsigned req unsigned tx.chain_id db).0.broadcasts
  unfolding submit_unsigned
  submit_unsigned-Signed req tx unsigned db m =
      let marked : Str → Db =
        λ id. update_status ans id signing [] (insert_draft ans req unsigned id db) in
      elim (Option-cases ans.inserted) [
        | inl e ↦ inl (rw (submit_unsigned, e) refl)
        | inr (id, e) ↦ elim (Option-cases ans.submit_error) [
          | inr (f, k) ↦ inl (
              rw (submit_unsigned, e, k)
                (status-broadcasts ans id failed f (marked id)
                  ∙ marked-broadcasts req unsigned id db))
          | inl k ↦
              rw (submit_unsigned, e, k)
                (rw (marked-broadcasts req unsigned id db) at
                  (sign_replacement-Signed id unsigned tx (marked id) m))
        ]
      ]

  submit_replacement-Signed :
      (req : SendRequest) (tx : FeeTx) (unsigned : Str) (db : Db)
      → eth.marshal_binary tx ≡ some unsigned
      → Signed tx db.broadcasts (submit_replacement req tx db).0.broadcasts
  unfolding submit_replacement
  submit_replacement-Signed req tx unsigned db m =
      rw (submit_replacement, m) (submit_unsigned-Signed req tx unsigned db m)

  mark_cancelled-broadcasts :
      (id : Str) (r : Db × Outcome Failure Str)
      → (mark_cancelled id r).0.broadcasts ≡ r.0.broadcasts
  unfolding mark_cancelled update_row
  mark_cancelled-broadcasts id (db, err e) = refl
  mark_cancelled-broadcasts id (db, ok hash) = elim (Bool-cases ans.marks_original) [
    | inl e ↦ rw e refl
    | inr e ↦ rw e refl
  ]

  -- Nothing was broadcast, or the replacement, with the signature that came, of the transaction that the
  -- row of this wallet stores.
  abbrev pub Replaced : (ℕ → FeeTx → FeeTx) → Str → Str → Str → Db → Db → Type 0
  Replaced replace id wallet_id chain db after =
      (after.broadcasts ≡ db.broadcasts)
      ⊎ ((row : Row) × (orig : FeeTx) × (cid : ℕ) × (load_row id wallet_id db ≡ some row)
          × (eth.unmarshal_binary row.unsigned_rlp ≡ some orig)
          × (chain_id chain ≡ some cid)
          × Signed (replace cid orig) db.broadcasts after.broadcasts)

  -- While every transaction has a binary form: CancelTx broadcasts nothing, or one transaction with the
  -- signature that came, and that has the nonce of the loaded transaction, both fees bumped, no value and
  -- no data, and goes to the sender itself.
  pub cancel_tx-Replaced :
      (id wallet_id from_address chain : Str) (db : Db)
      → ((tx : FeeTx) → (unsigned : Str) × (eth.marshal_binary tx ≡ some unsigned))
      → Replaced
          (λ cid. cancel_of cid (eth.hex_to_address from_address))
          id
          wallet_id
          chain
          db
          (cancel_tx id wallet_id from_address chain db).0
  unfolding cancel_tx
  cancel_tx-Replaced id wallet_id from_address chain db marshals =
      elim (Option-cases (load_row id wallet_id db)) [
        | inl l ↦ inl (rw (cancel_tx, l) refl)
        | inr (row, l) ↦ elim (Option-cases (eth.unmarshal_binary row.unsigned_rlp)) [
          | inl u ↦ inl (rw (cancel_tx, l, u) refl)
          | inr (orig, u) ↦ elim (Option-cases (chain_id chain)) [
            | inl c ↦ inl (rw (cancel_tx, l, u, c) refl)
            | inr (cid, c) ↦
                let tx = cancel_of cid (eth.hex_to_address from_address) orig in
                let (unsigned, m) = marshals tx in
                inr (
                  row,
                  orig,
                  cid,
                  l,
                  u,
                  c,
                  rw (cancel_tx, l, u, c, mark_cancelled-broadcasts id)
                      (submit_replacement-Signed (cancel_request wallet_id from_address chain) tx
                        unsigned db m),
                )
          ]
        ]
      ]

  -- While every transaction has a binary form: SpeedUpTx broadcasts nothing, or one transaction with the
  -- signature that came, and that is the loaded transaction with both fees bumped.
  speed_up_tx-Replaced :
      (id wallet_id chain : Str) (db : Db)
      → ((tx : FeeTx) → (unsigned : Str) × (eth.marshal_binary tx ≡ some unsigned))
      → Replaced speed_up_of id wallet_id chain db (speed_up_tx id wallet_id chain db).0
  unfolding speed_up_tx
  speed_up_tx-Replaced id wallet_id chain db marshals =
      elim (Option-cases (load_row id wallet_id db)) [
        | inl l ↦ inl (rw (speed_up_tx, l) refl)
        | inr (row, l) ↦ elim (Option-cases (eth.unmarshal_binary row.unsigned_rlp)) [
          | inl u ↦ inl (rw (speed_up_tx, l, u) refl)
          | inr (orig, u) ↦ elim (Option-cases (chain_id chain)) [
            | inl c ↦ inl (rw (speed_up_tx, l, u, c) refl)
            | inr (cid, c) ↦
                let (unsigned, m) = marshals (speed_up_of cid orig) in
                inr (
                  row,
                  orig,
                  cid,
                  l,
                  u,
                  c,
                  rw (speed_up_tx, l, u, c)
                      (submit_replacement-Signed (speed_up_request wallet_id chain row)
                        (speed_up_of cid orig) unsigned db m),
                )
          ]
        ]
      ]
