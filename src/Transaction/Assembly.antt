-- ===== src/Transaction/Assembly.antt =====
-- The signed transaction, wallet-api/pkg/transaction/assembler.go, and the fees of the transactions that
-- replace another one in service.go.
use mpcium.Base.{
  ℕ, ◌-◌, ◌*◌, ◌/◌, ◌%◌, ◌≤◌, ◌≡◌, refl, ap, ◌∙◌, Bool-cases, inl, inr, ◌||◌, if◌then◌else◌, leb,
  Option, none, some, [], ◌∷◌, ◌++◌, Str, arith, length, length-append, take, take-length, drop,
  drop-length, Outcome, ok, err, ◌>>=◌, fail_if, bind_ok,
}
use mpcium.Event.{is_empty}
use mpcium.Text.BigInt.{set_bytes}
use mpcium.Text.Padding.{zero_padded, length-zero_padded, set_bytes-zero_padded, length-drop}
use mpcium.Transaction.{Ethereum, FeeTx}

pub data Error : Type 0 where
  unmarshal_failed missing_components signing_failed : Error

-- padLeft
unfoldable pub pad_left : Str → ℕ → Str
pad_left b size = if leb size (length b) then drop (length b - size) b else zero_padded size b

-- The last byte, of a text that is not empty.
abbrev pub last_byte : Str → ℕ
last_byte [] = 0
last_byte (c ∷ []) = c
last_byte (c ∷ (d ∷ s)) = last_byte (d ∷ s)

-- The 65 bytes of the signature.
unfoldable pub sig65 : Str → Str → Str → Str
unfolding pad_left
sig65 r s recovery = pad_left r 32 ++ (pad_left s 32 ++ (last_byte recovery % 2) ∷ [])

abbrev pub from_option {ℓ} : {A : Type ℓ} → Option A → Error → Outcome Error A
from_option none e = err e
from_option (some a) e = ok a

-- AssembleSignedTx
unfoldable pub assemble_signed_tx : Ethereum → Str → Str → Str → Str → ℕ → Outcome Error Str
unfolding sig65
assemble_signed_tx eth unsigned r s recovery chain_id = do
  tx ← from_option (eth.unmarshal_binary unsigned) unmarshal_failed
  present ← fail_if (is_empty r || (is_empty s || is_empty recovery)) missing_components
  from_option (eth.with_signature chain_id tx (sig65 r s recovery)) signing_failed

pub length-pad_left : (b : Str) (size : ℕ) → length (pad_left b size) ≡ size
unfolding pad_left
length-pad_left b size = elim (Bool-cases (leb size (length b))) [
  | inl e ↦ rw e (length-drop (length b - size) b (omega arith) ∙ ground arith)
  | inr e ↦ rw e (length-zero_padded size b (ground arith))
]

whole :
    (b : Str) (size : ℕ)
    → length b ≤ size
    → size ≤ length b
    → set_bytes (drop (length b - size) b) ≡ set_bytes b
whole b size h k = let none_left : length b - size ≡ 0 = omega arith in rw none_left refl

set_bytes-pad_left :
    (b : Str) (size : ℕ) → length b ≤ size → set_bytes (pad_left b size) ≡ set_bytes b
unfolding pad_left
set_bytes-pad_left b size h = elim (Bool-cases (leb size (length b))) [
  | inl e ↦ rw e (whole b size h (ground arith))
  | inr e ↦ rw e (set_bytes-zero_padded size b)
]

-- The signature that the signer is given has 65 bytes; where r and s have at most 32 bytes each, its
-- first 32 bytes spell the number of r, the next 32 that of s, and the last is the recovery bit.
pub sig65_lem :
    (r s recovery : Str)
    → length r ≤ 32
    → length s ≤ 32
    → (length (sig65 r s recovery) ≡ 65)
      × (set_bytes (take 32 (sig65 r s recovery)) ≡ set_bytes r)
      × (set_bytes (take 32 (drop 32 (sig65 r s recovery))) ≡ set_bytes s)
      × (drop 32 (drop 32 (sig65 r s recovery)) ≡ (last_byte recovery % 2) ∷ [])
unfolding sig65
sig65_lem r s recovery hr hs =
    let pr = pad_left r 32 in
    let ps = pad_left s 32 in
    let bit = (last_byte recovery % 2) ∷ [] in
    let lr = length-pad_left r 32 in
    let ls = length-pad_left s 32 in
    let rest : drop 32 (pr ++ (ps ++ bit)) ≡ ps ++ bit = drop-length 32 pr (ps ++ bit) lr in
    (
      omega (arith, length-append pr (ps ++ bit), length-append ps bit, lr, ls),
      ap set_bytes (take-length 32 pr (ps ++ bit) lr) ∙ set_bytes-pad_left r 32 hr,
      ap (λ t. set_bytes (take 32 t)) rest
          ∙ ap set_bytes (take-length 32 ps bit ls)
          ∙ set_bytes-pad_left s 32 hs,
      ap (drop 32) rest ∙ drop-length 32 ps bit ls,
    )

-- The fees of CancelTx and SpeedUpTx.
unfoldable pub bumped : ℕ → ℕ
bumped fee = fee * 120 / 100

-- A bumped fee is at least ten percent higher than the old one, from 8 wei on, as the replacement of a
-- pending transaction needs, and it is never more than twenty percent higher.
pub bumped_bounds :
    (fee : ℕ) → 8 ≤ fee → (fee * 110 ≤ bumped fee * 100) × (bumped fee * 100 ≤ fee * 120)
unfolding bumped
bumped_bounds fee h = (omega arith, omega arith)

signed_ok : (o : Option Str) {rlp : Str} → from_option o signing_failed ≡ ok rlp → o ≡ some rlp
signed_ok none h = cc
signed_ok (some s) h = ground arith

-- What is assembled of the stored form is the transaction itself with the 65 bytes of the signature.
pub assemble_signed_tx-marshalled :
    (eth : Ethereum) (tx : FeeTx) (unsigned r s recovery rlp : Str)
    → eth.marshal_binary tx ≡ some unsigned
    → assemble_signed_tx eth unsigned r s recovery tx.chain_id ≡ ok rlp
    → eth.with_signature tx.chain_id tx (sig65 r s recovery) ≡ some rlp
unfolding assemble_signed_tx
assemble_signed_tx-marshalled eth tx unsigned r s recovery rlp m h =
    let g = rw (assemble_signed_tx, eth.unmarshal-marshal_binary tx unsigned m) at h in
    let (u, present, k) =
      bind_ok (fail_if (is_empty r || (is_empty s || is_empty recovery)) missing_components) _ g in
    signed_ok _ k
