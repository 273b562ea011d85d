-- ===== src/Transaction/Examples.antt =====
-- The theorems on transfers at a concrete one.
use mpcium.Base.{◌*◌, ◌≤◌, ◌≡◌, refl, [], ◌∷◌, length, codes, str_eq, lookup, arith}
use mpcium.Transaction.Samples.{toy_ethereum, toy_text, transfer, answers, database}
use mpcium.Transaction.Assembly.{bumped, bumped_bounds}
use mpcium.Transaction.{FeeTx, broadcast}
use mpcium.Transaction.Pipeline.{Db, key_of, send}
use mpcium.Transaction.Pipeline.Nonces.{Settled, send-Settled}
use mpcium.Transaction.Pipeline.Broadcasts.{SentTransfer, send-SentTransfer}
use mpcium.Transaction.Replacement.{Replaced, cancel_of, cancel_tx, cancel_tx-Replaced}

bumped_bounds_example : (1000 * 110 ≤ bumped 1000 * 100) × (bumped 1000 * 100 ≤ 1000 * 120)
bumped_bounds_example = bumped_bounds 1000 (omega arith)

send-Settled_example :
    Settled (key_of toy_ethereum transfer) 7 (send toy_ethereum answers transfer database)
unfolding key_of lookup str_eq
send-Settled_example = send-Settled toy_ethereum answers transfer 7 refl database refl

send-SentTransfer_example :
    SentTransfer toy_ethereum answers transfer []
      (send toy_ethereum answers transfer database).0.broadcasts
send-SentTransfer_example = send-SentTransfer toy_ethereum answers transfer database

-- A transfer that waits in the pool.
abbrev waiting_tx : FeeTx
waiting_tx = record {
  chain_id = 8453;
  nonce = 7;
  gas_tip_cap = 100;
  gas_fee_cap = 200;
  gas = 60000;
  to = codes "b";
  value = 0;
  calldata = [];
}

abbrev pending : Db
pending = record database {
  rows =
      (
        codes "1",
        record {
          wallet_id = codes "w";
          tx_id = codes "t0";
          chain = codes "base";
          token = codes "USDC";
          to_address = codes "b";
          amount = 5;
          status = broadcast;
          mpc_error = [];
          unsigned_rlp = toy_text waiting_tx;
          signed_rlp = [];
          tx_hash = codes "h0";
        },
      )
      ∷ [];
}

cancel_tx-Replaced_example :
    Replaced toy_ethereum answers
      (λ cid. cancel_of cid (codes "a"))
      (codes "1")
      (codes "w")
      (codes "base")
      pending
      (cancel_tx toy_ethereum answers (codes "1") (codes "w") (codes "a") (codes "base") pending).0
cancel_tx-Replaced_example =
    cancel_tx-Replaced toy_ethereum answers (codes "1") (codes "w") (codes "a") (codes "base")
      pending (λ t. (toy_text t, refl))

-- The replacement is broadcast.
test_cancel :
    length
      (cancel_tx toy_ethereum answers
        (codes "1")
        (codes "w")
        (codes "a")
        (codes "base")
        pending).0.broadcasts
    ≡ 1
unfolding cancel_tx lookup str_eq
test_cancel = refl
