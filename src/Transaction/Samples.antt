-- ===== src/Transaction/Samples.antt =====
-- Test data: a toy Ethereum, a transfer, and the answers of a run that succeeds.
use mpcium.Base.{◌≡◌, refl, sym, ap, ◌∙◌, true, Option, none, some, [], ◌∷◌, ◌++◌, Str, codes, ok}
use mpcium.Text.Pack.{pack, unpack, unpack-pack}
use mpcium.Transaction.{Ethereum, FeeTx}
use mpcium.Transaction.Counter.{pos}
use mpcium.Transaction.Pipeline.{Db, SendRequest, Answers, signature}

abbrev pub toy_text : FeeTx → Str
toy_text t =
    t.chain_id
    ∷ (t.nonce
        ∷ (t.gas_tip_cap ∷ (t.gas_fee_cap ∷ (t.gas ∷ (t.value ∷ pack t.to (pack t.calldata []))))))

abbrev pub toy_read : Str → Option FeeTx
toy_read (c ∷ (n ∷ (tip ∷ (cap ∷ (g ∷ (v ∷ s)))))) =
    let (to, rest) = unpack s in
    some (record {
      chain_id = c;
      nonce = n;
      gas_tip_cap = tip;
      gas_fee_cap = cap;
      gas = g;
      to = to;
      value = v;
      calldata = (unpack rest).0;
    })
toy_read _ = none

toy_read-toy_text : (t : FeeTx) → toy_read (toy_text t) ≡ some t
toy_read-toy_text t = rw (unpack-pack t.to (pack t.calldata []), unpack-pack t.calldata []) refl

abbrev text_in : Option Str → Str
text_in none = []
text_in (some s) = s

pub toy_unmarshal_marshal :
    (t : FeeTx) (s : Str) → Path (Option Str) (some (toy_text t)) (some s) → toy_read s ≡ some t
toy_unmarshal_marshal t s h = ap toy_read (sym (ap text_in h)) ∙ toy_read-toy_text t

abbrev pub toy_ethereum : Ethereum
toy_ethereum = record {
  hex_to_address = λ s. s;
  lower_hex = λ s. s;
  pack_transfer = λ to amount. some (amount ∷ to);
  signing_hash = λ t. toy_text t;
  marshal_binary = λ t. some (toy_text t);
  unmarshal_binary = toy_read;
  with_signature = λ chain t sig. some (sig ++ toy_text t);
  unmarshal-marshal_binary = toy_unmarshal_marshal;
}

abbrev pub transfer : SendRequest
transfer = record {
  wallet_id = codes "w";
  chain = codes "base";
  token = codes "USDC";
  to_address = codes "b";
  amount = 5;
  from_address = codes "a";
}

abbrev pub answers : Answers
answers = record {
  dials = true;
  pending_nonce = some 7;
  redis = true;
  gas_tip = some 10;
  tx_id = codes "t";
  inserted = some (codes "1");
  updates = λ s. true;
  submit_error = none;
  waited = signature (codes "r") (codes "s") (codes "v");
  saves_signed = true;
  saves_hash = true;
  broadcasts = λ rlp. ok (codes "hash");
  marks_original = true;
}

abbrev pub database : Db
database = record { counters = (codes "nonce:base:a", pos 7) ∷ []; rows = []; broadcasts = [] }
