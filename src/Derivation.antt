-- ===== src/Derivation.antt =====
-- The derivation of child keys by a client, pkg/ckdutil/child_derivation.go.
pub mod Secret
mod Examples
use mpcium.Base.{
  ℕ, ◌+◌, ◌-◌, ◌*◌, ◌%◌, ◌≤◌, ◌<◌, ◌≡◌, Bool, true, false, not, ◌||◌, if◌then◌else◌, ◌==◌, ltb, leb,
  Option, none, some, List, [], ◌∷◌, ◌++◌, length, take, drop, replicate, Str, Outcome, ok, err,
  ◌>>=◌, fail_if,
}
use mpcium.Text.BigInt.{bytes, set_bytes}
use mpcium.Text.Endian.{big_endian_32}
use mpcium.Text.Hex.{decode_hex}

abbrev pub Point : Type 0
Point = ℕ × ℕ

-- An elliptic curve of the libraries: the order N of its group, ScalarBaseMult, and Add, which may give
-- nil. Multiples of the base point add up in the group of their factors.
pub record Curve : Type 0 where
  pub order : ℕ
  pub scalar_base_mult : ℕ → Point
  pub add : Point → Point → Option Point
  pub add-scalar_base_mult :
      (a b : ℕ)
      → add (scalar_base_mult a) (scalar_base_mult b) ≡ some (scalar_base_mult ((a + b) % order))

-- HMAC-SHA512, and the two libraries' formats of keys.
pub record Library : Type 0 where
  pub hmac_sha512 : Str → Str → Str
  pub parse_secp256k1 : Str → Option Point
  pub parse_ed25519 : Str → Option Point
  pub serialize_ed25519 : Point → Str

pub data Error : Type 0 where
  empty_master bad_length bad_master bad_hex bad_chain_code hardened invalid_il invalid_child :
      Error

-- paddedBytes
unfoldable pub padded_bytes : ℕ → Str → Str
padded_bytes size src =
    if ltb (length src) size then replicate (size - length src) 0 ++ src else src

-- serializeCompressed
unfoldable pub serialize_compressed : Point → Str
unfolding padded_bytes
serialize_compressed (x, y) = (if y % 2 == 1 then 3 else 2) ∷ padded_bytes 32 (bytes x)

-- What is made of the first half of the hash, on secp256k1 and on ed25519.
abbrev pub secp256k1_il : ℕ → ℕ → Option ℕ
secp256k1_il order il = if (il == 0) || leb order il then none else some il

abbrev pub ed25519_il : ℕ → ℕ → Option ℕ
ed25519_il order n = let il = n % order in if (il == 0) || leb order il then none else some il

-- A child point, unless it is nil or has a coordinate 0.
abbrev pub valid_child : Option Point → Outcome Error Point
valid_child none = err invalid_child
valid_child (some (x, y)) = if (x == 0) || (y == 0) then err invalid_child else ok (x, y)

module _ (lib : Library) (c : Curve) (il_of : ℕ → ℕ → Option ℕ) where
  -- The hash for a child: of the serialized key and the index, under the chain code.
  abbrev pub child_hash : Point → Str → ℕ → Str
  child_hash p chain_code index =
      lib.hmac_sha512 chain_code (serialize_compressed p ++ big_endian_32 index)

  -- The body of the loop over the path.
  unfoldable pub derive_child : Point → Str → ℕ → Outcome Error (Point × Str)
  derive_child p chain_code index = do
    normal ← fail_if (leb 2147483648 index) hardened
    let ilr = child_hash p chain_code index
    elim (il_of c.order (set_bytes (take 32 ilr))) [
      | none ↦ err invalid_il
      | some il ↦ valid_child (c.add p (c.scalar_base_mult il)) >>= λ q. ok (q, drop 32 ilr)
    ]

  unfoldable pub derive_path : Point → Str → List ℕ → Outcome Error Point
  unfolding derive_child
  derive_path p chain_code [] = ok p
  derive_path p chain_code (index ∷ path) =
      derive_child p chain_code index >>= λ r. derive_path r.0 r.1 path

-- hex.DecodeString on the chain code, with the check of its length.
unfoldable pub decode_chain_code : Str → Outcome Error Str
unfolding decode_hex
decode_chain_code s = elim (decode_hex s) [
  | none ↦ err bad_hex
  | some code ↦ if length code == 32 then ok code else err bad_chain_code
]

abbrev pub or_bad_master : Option Point → Outcome Error Point
or_bad_master none = err bad_master
or_bad_master (some p) = ok p

module _ (lib : Library) (c : Curve) where
  -- DeriveSecp256k1ChildCompressed
  unfoldable pub derive_secp256k1_child_compressed : Str → Str → List ℕ → Outcome Error Str
  unfolding derive_path decode_chain_code serialize_compressed
  derive_secp256k1_child_compressed master chain_code_hex path = do
    sized ← fail_if (not (length master == 33)) bad_length
    p ← or_bad_master (lib.parse_secp256k1 master)
    chain_code ← decode_chain_code chain_code_hex
    q ← derive_path lib c secp256k1_il p chain_code path
    ok (serialize_compressed q)

  -- DeriveEd25519ChildCompressed
  unfoldable pub derive_ed25519_child_compressed : Str → Str → List ℕ → Outcome Error Str
  unfolding derive_path decode_chain_code
  derive_ed25519_child_compressed master chain_code_hex path = do
    given ← fail_if (length master == 0) empty_master
    p ← or_bad_master (lib.parse_ed25519 master)
    chain_code ← decode_chain_code chain_code_hex
    q ← derive_path lib c ed25519_il p chain_code path
    ok (lib.serialize_ed25519 q)
