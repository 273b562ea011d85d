-- ===== src/Transaction/Pipeline.antt =====
-- Send, CancelTx and SpeedUpTx of wallet-api/pkg/transaction/service.go, with BuildERC20Transfer of
-- builder.go.
pub mod Nonces
pub mod Broadcasts
use mpcium.Base.{
  ℕ, ◌+◌, Bool, true, false, if◌then◌else◌, str_eq, ◌&&◌, Option, none, some, List, [], ◌∷◌, Str,
  codes, Dict, lookup, insert, Outcome, ok, err,
}
use mpcium.Transaction.{Status, draft, signing, signed, broadcast, failed, Ethereum, FeeTx}
use mpcium.Transaction.Tokens.{chain_id, token_address}
use mpcium.Transaction.Counter.{ℤ, NonceError, nonce_key, release_nonce, next_nonce}
use mpcium.Transaction.Assembly
use mpcium.Transaction.Assembly.{assemble_signed_tx, bumped}

-- A row of the table transactions.
pub record Row : Type 0 where
  pub wallet_id : Str
  pub tx_id : Str
  pub chain : Str
  pub token : Str
  pub to_address : Str
  pub amount : ℕ
  pub status : Status
  pub mpc_error : Str
  pub unsigned_rlp : Str
  pub signed_rlp : Str
  pub tx_hash : Str

-- Redis' counters, the rows by their ids, and what was given to BroadcastTx, the last first.
pub record Db : Type 0 where
  pub counters : Dict ℤ
  pub rows : Dict Row
  pub broadcasts : List Str

-- SendRequest, with the address that the caller gives.
pub record SendRequest : Type 0 where
  pub wallet_id : Str
  pub chain : Str
  pub token : Str
  pub to_address : Str
  pub amount : ℕ
  pub from_address : Str

-- How the wait for the signature ends.
pub data Waited : Type 0 where
  signature : Str → Str → Str → Waited
  refused : Str → Waited
  timed_out cancelled : Waited

-- What the calls of one run return: Dial, PendingNonceAt, whether Redis answers, SuggestGasTipCap, the new
-- text id, the id of the inserted row, whether the update to a status succeeds, the error of
-- SignTransaction, the wait, whether the signed form and the hash are saved, and BroadcastTx, which gives
-- the hash or an error.
pub record Answers : Type 0 where
  pub dials : Bool
  pub pending_nonce : Option ℕ
  pub redis : Bool
  pub gas_tip : Option ℕ
  pub tx_id : Str
  pub inserted : Option Str
  pub updates : Status → Bool
  pub submit_error : Option Str
  pub waited : Waited
  pub saves_signed : Bool
  pub saves_hash : Bool
  pub broadcasts : Str → Outcome Str Str
  pub marks_original : Bool

pub data Failure : Type 0 where
  unknown_chain dial_failed unsupported_token pack_failed marshal_failed insert_failed update_failed
        load_failed decode_failed timeout context_done :
      Failure
  nonce_failed : NonceError → Failure
  submit_failed signing_refused broadcast_failed : Str → Failure
  assemble_failed : Assembly.Error → Failure

-- BuildResult, with the transaction itself.
pub record BuildResult : Type 0 where
  pub tx : FeeTx
  pub unsigned_rlp : Str

-- The transaction of BuildERC20Transfer.
unfoldable pub erc20_tx : Option ℕ → ℕ → Str → ℕ → Str → FeeTx
erc20_tx tip id token_addr nonce calldata =
    let gas_tip : ℕ = elim tip [ none ↦ 1000000000 | some t ↦ t ] in
    record {
      chain_id = id;
      nonce = nonce;
      gas_tip_cap = gas_tip;
      gas_fee_cap = gas_tip + 20000000000;
      gas = 65000;
      to = token_addr;
      value = 0;
      calldata = calldata;
    }

-- BuildERC20Transfer from the nonce on.
unfoldable pub build_with_nonce :
    Ethereum → Answers → SendRequest → ℕ → Str → ℕ → Outcome Failure BuildResult
unfolding erc20_tx
build_with_nonce eth ans req id token_addr nonce =
    elim (eth.pack_transfer (eth.hex_to_address req.to_address) req.amount) [
      | none ↦ err pack_failed
      | some calldata ↦
          let tx = erc20_tx ans.gas_tip id token_addr nonce calldata in
          elim (eth.marshal_binary tx) [
            | none ↦ err marshal_failed
            | some rlp ↦ ok (record { tx = tx; unsigned_rlp = rlp })
          ]
    ]

-- The key of the nonces of a request.
unfoldable pub key_of : Ethereum → SendRequest → Str
unfolding nonce_key
key_of eth req = nonce_key req.chain (eth.lower_hex (eth.hex_to_address req.from_address))

-- BuildERC20Transfer: the counters after it, and what it gives.
unfoldable pub build_erc20_transfer :
    Ethereum → Answers → SendRequest → Dict ℤ → Dict ℤ × Outcome Failure BuildResult
unfolding key_of build_with_nonce chain_id token_address next_nonce
build_erc20_transfer eth ans req counters = elim (chain_id req.chain) [
  | none ↦ (counters, err unknown_chain)
  | some id ↦
      if ans.dials
      then elim (token_address req.chain req.token) [
        | none ↦ (counters, err unsupported_token)
        | some address ↦
            let (after, nonce) = next_nonce ans.redis ans.pending_nonce (key_of eth req) counters in
            (
              after,
              elim nonce [
                | err e ↦ err (nonce_failed e)
                | ok n ↦ build_with_nonce eth ans req id (eth.hex_to_address address) n
              ],
            )
      ]
      else (counters, err dial_failed)
]

-- ReleaseNonce of a request.
unfoldable pub release : Ethereum → Answers → SendRequest → Db → Db
unfolding release_nonce key_of
release eth ans req db = record db {
  counters = release_nonce ans.redis (key_of eth req) db.counters;
}

-- An UPDATE of the row with an id.
unfoldable pub update_row : Str → (Row → Row) → Db → Db
update_row id f db = record db {
  rows = elim (lookup id db.rows) [ none ↦ db.rows | some row ↦ insert id (f row) db.rows ];
}

-- updateStatus
unfoldable pub update_status : Answers → Str → Status → Str → Db → Db
unfolding update_row
update_status ans id status text db =
    if ans.updates status
    then update_row id (λ row. record row { status = status; mpc_error = text }) db
    else db

-- saveSignedRLP
unfoldable pub save_signed_rlp : Answers → Str → Str → Db → Db
unfolding update_row
save_signed_rlp ans id rlp db =
    if ans.saves_signed then update_row id (λ row. record row { signed_rlp = rlp }) db else db

-- saveTxHash
unfoldable pub save_tx_hash : Answers → Str → Str → Db → Db
unfolding update_row
save_tx_hash ans id hash db =
    if ans.saves_hash then update_row id (λ row. record row { tx_hash = hash }) db else db

-- insertDraft
unfoldable pub insert_draft : Answers → SendRequest → Str → Str → Db → Db
insert_draft ans req unsigned id db = record db {
  rows =
      insert id
        (record {
          wallet_id = req.wallet_id;
          tx_id = ans.tx_id;
          chain = req.chain;
          token = req.token;
          to_address = req.to_address;
          amount = req.amount;
          status = draft;
          mpc_error = [];
          unsigned_rlp = unsigned;
          signed_rlp = [];
          tx_hash = [];
        })
        db.rows;
}

-- The steps from saveSignedRLP to the status broadcast: the hash, or the error.
unfoldable pub broadcast_signed : Answers → Str → Str → Db → Db × Outcome Failure Str
unfolding save_signed_rlp save_tx_hash update_status
broadcast_signed ans id rlp db =
    let saved = save_signed_rlp ans id rlp db in
    let sent : Db = record saved { broadcasts = rlp ∷ saved.broadcasts } in
    elim (ans.broadcasts rlp) [
      | err e ↦ (update_status ans id failed e sent, err (broadcast_failed e))
      | ok hash ↦ (update_status ans id broadcast [] (save_tx_hash ans id hash sent), ok hash)
    ]

-- Send from the wait for the signature on.
unfoldable pub send_signature :
    Ethereum → Answers → SendRequest → BuildResult → Str → Db → Db × Outcome Failure Str
unfolding release update_status broadcast_signed assemble_signed_tx
send_signature eth ans req built id db = elim ans.waited [
  | timed_out ↦
      (release eth ans req (update_status ans id failed (codes "signing timeout") db), err timeout)
  | cancelled ↦ (db, err context_done)
  | refused reason ↦
      (release eth ans req (update_status ans id failed reason db), err (signing_refused reason))
  | signature r s recovery ↦
      let after = update_status ans id signed [] db in
      elim (assemble_signed_tx eth built.unsigned_rlp r s recovery built.tx.chain_id) [
        | err e ↦ (update_status ans id failed (codes "assembler") after, err (assemble_failed e))
        | ok rlp ↦ broadcast_signed ans id rlp after
      ]
]

-- Send from the draft on.
unfoldable pub send_built :
    Ethereum → Answers → SendRequest → BuildResult → Db → Db × Outcome Failure Str
unfolding release insert_draft update_status send_signature
send_built eth ans req built db = elim ans.inserted [
  | none ↦ (release eth ans req db, err insert_failed)
  | some id ↦
      let drafted = insert_draft ans req built.unsigned_rlp id db in
      let marked = update_status ans id signing [] drafted in
      if ans.updates signing
      then elim ans.submit_error [
        | some e ↦
            (release eth ans req (update_status ans id failed e marked), err (submit_failed e))
        | none ↦ send_signature eth ans req built id marked
      ]
      else (marked, err update_failed)
]

-- Send after BuildERC20Transfer.
unfoldable pub send_after_build :
    Ethereum
    → Answers
    → SendRequest
    → Db
    → Dict ℤ × Outcome Failure BuildResult
    → Db × Outcome Failure Str
unfolding send_built
send_after_build eth ans req db (counters, err e) = (record db { counters = counters }, err e)
send_after_build eth ans req db (counters, ok built) =
    send_built eth ans req built (record db { counters = counters })

-- Send: the hash, or the error.
unfoldable pub send : Ethereum → Answers → SendRequest → Db → Db × Outcome Failure Str
unfolding build_erc20_transfer send_after_build
send eth ans req db = send_after_build eth ans req db (build_erc20_transfer eth ans req db.counters)
