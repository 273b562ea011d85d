-- ===== src/Transaction.antt =====
-- Transfers of the wallet API, wallet-api/pkg/transaction: building a transaction with the next nonce
-- (builder.go), the pipeline of Send and the replacements of CancelTx and SpeedUpTx (service.go), and the
-- assembly of the signed transaction (assembler.go).
pub mod Tokens
pub mod Assembly
pub mod Counter
pub mod Pipeline
pub mod Replacement
pub mod Samples
mod Examples
use mpcium.Base.{ℕ, ◌≡◌, Bool, Option, none, some, List, [], ◌∷◌, Str, codes, Dict}

-- Status, as Send and its kin write it.
pub data Status : Type 0 where
  draft signing signed broadcast failed : Status

-- types.DynamicFeeTx of go-ethereum.
pub record FeeTx : Type 0 where
  pub chain_id : ℕ
  pub nonce : ℕ
  pub gas_tip_cap : ℕ
  pub gas_fee_cap : ℕ
  pub gas : ℕ
  pub to : Str
  pub value : ℕ
  pub calldata : Str

-- go-ethereum, and the token tables' addresses: HexToAddress, its lower-case text, the packing of the
-- call of transfer, the signer's hash, the binary form of a transaction and WithSignature with the binary
-- form of what it gives. By its documentation UnmarshalBinary reads what MarshalBinary writes.
pub record Ethereum : Type 0 where
  pub hex_to_address : Str → Str
  pub lower_hex : Str → Str
  pub pack_transfer : Str → ℕ → Option Str
  pub signing_hash : FeeTx → Str
  pub marshal_binary : FeeTx → Option Str
  pub unmarshal_binary : Str → Option FeeTx
  pub with_signature : ℕ → FeeTx → Str → Option Str
  pub unmarshal-marshal_binary :
      (tx : FeeTx) (s : Str) → marshal_binary tx ≡ some s → unmarshal_binary s ≡ some tx
