-- ===== src/Transaction/Counter.antt =====
-- The nonces of wallet-api/pkg/transaction/builder.go: a counter in Redis for each chain and address.
use mpcium.Base.{
  ℕ, zero, suc, ◌≡◌, refl, Bool, if◌then◌else◌, Option, none, some, ◌++◌, Str, codes, Dict, lookup,
  insert, Outcome, ok, err,
}

-- Redis keeps integers, which DECR takes below zero.
pub data ℤ : Type 0 where
  pos negsuc : ℕ → ℤ

abbrev pub incr_ℤ : ℤ → ℤ
incr_ℤ (pos n) = pos (suc n)
incr_ℤ (negsuc zero) = pos zero
incr_ℤ (negsuc (suc n)) = negsuc n

abbrev pub decr_ℤ : ℤ → ℤ
decr_ℤ (pos zero) = negsuc zero
decr_ℤ (pos (suc n)) = pos n
decr_ℤ (negsuc n) = negsuc (suc n)

pub decr-incr_ℤ : (z : ℤ) → decr_ℤ (incr_ℤ z) ≡ z
decr-incr_ℤ (pos n) = refl
decr-incr_ℤ (negsuc zero) = refl
decr-incr_ℤ (negsuc (suc n)) = refl

-- A counter that is not there counts as 0.
abbrev pub counter : Option ℤ → ℤ
counter none = pos 0
counter (some z) = z

-- The key of a counter, for the lower-case text of an address.
unfoldable pub nonce_key : Str → Str → Str
nonce_key chain address = codes "nonce:" ++ (chain ++ (codes ":" ++ address))

-- ReleaseNonce, where Redis answers or not.
unfoldable pub release_nonce : Bool → Str → Dict ℤ → Dict ℤ
release_nonce answers key counters =
    if answers then insert key (decr_ℤ (counter (lookup key counters))) counters else counters

pub data NonceError : Type 0 where
  rpc_failed incr_failed not_unsigned : NonceError

-- strconv.ParseUint of the printed counter less one; a counter fits its 64 bits.
abbrev pub to_nonce : ℤ → Outcome NonceError ℕ
to_nonce (pos n) = ok n
to_nonce (negsuc n) = err not_unsigned

-- INCR and what follows it.
unfoldable pub take_nonce : Bool → Str → Dict ℤ → Dict ℤ × Outcome NonceError ℕ
take_nonce answers key counters =
    let n = counter (lookup key counters) in
    if answers then (insert key (incr_ℤ n) counters, to_nonce n) else (counters, err incr_failed)

-- nextNonce, given the pending nonce that the chain answers, or none: Redis is seeded with it where it
-- has no counter.
unfoldable pub next_nonce : Bool → Option ℕ → Str → Dict ℤ → Dict ℤ × Outcome NonceError ℕ
unfolding take_nonce
next_nonce answers pending key counters = elim (if answers then lookup key counters else none) [
  | some n ↦ take_nonce answers key counters
  | none ↦ elim pending [
    | none ↦ (counters, err rpc_failed)
    | some n ↦ take_nonce answers key (if answers then insert key (pos n) counters else counters)
  ]
]
