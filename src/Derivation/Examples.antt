-- ===== src/Derivation/Examples.antt =====
-- Child keys over a toy group: the numbers below 11, each standing for a point with two coordinates that are not 0.
use mpcium.Base.{
  ℕ, ◌+◌, ◌%◌, ◌≡◌, refl, ap, some, [], ◌∷◌, ◌++◌, ◌-◌, replicate, Option, Str, ok, ◌>>=◌, arith,
}
use mpcium.Derivation.{
  Curve, Point, Library, serialize_compressed, derive_secp256k1_child_compressed,
  derive_ed25519_child_compressed, secp256k1_il, ed25519_il, decode_chain_code,
}
use mpcium.Derivation.Secret.{secret_path, derive_child_compressed-secret_path}

abbrev point_of : ℕ → Point
point_of k = (k % 11 + 1, k % 11 + 1)

abbrev add_points : Point → Point → Option Point
add_points (a, b) (a', b') = some (point_of (a - 1 + (a' - 1)))

point_pair : (m n : ℕ) → m ≡ n → ◌≡◌ {A = Option Point} (some (m + 1, m + 1)) (some (n + 1, n + 1))
point_pair m n e = ap (λ t. some (t + 1, t + 1)) e

toy_add : (a b : ℕ) → add_points (point_of a) (point_of b) ≡ some (point_of ((a + b) % 11))
toy_add a b = point_pair _ _ (omega arith)

abbrev toy_curve : Curve
toy_curve = record {
  order = 11;
  scalar_base_mult = point_of;
  add = add_points;
  add-scalar_base_mult = toy_add;
}

-- The hash is the index, twice.
abbrev toy_library : Library
toy_library = record {
  hmac_sha512 = λ key text. replicate 31 0 ++ 7 ∷ key;
  parse_secp256k1 = λ s. some (point_of 5);
  parse_ed25519 = λ s. some (point_of 4);
  serialize_ed25519 = λ p. p.0 ∷ [];
}

abbrev zeros : Str
zeros = replicate 64 48

test_derive :
    derive_ed25519_child_compressed toy_library toy_curve (1 ∷ []) zeros (0 ∷ 1 ∷ []) ≡ ok (8 ∷ [])
unfolding derive_ed25519_child_compressed mpcium.Text.BigInt.set_bytes
test_derive = refl

derive_child_compressed-secret_path_example :
    (derive_secp256k1_child_compressed toy_library toy_curve (replicate 33 2) zeros (0 ∷ 1 ∷ []) ≡ (
      secret_path toy_library toy_curve secp256k1_il 5 (replicate 32 0) (0 ∷ 1 ∷ []) >>= λ k'.
      ok (serialize_compressed (point_of k'))))
    × (derive_ed25519_child_compressed toy_library toy_curve (1 ∷ []) zeros (0 ∷ 1 ∷ []) ≡ (
        secret_path toy_library toy_curve ed25519_il 4 (replicate 32 0) (0 ∷ 1 ∷ []) >>= λ j'.
        ok (toy_library.serialize_ed25519 (point_of j'))))
unfolding decode_chain_code
derive_child_compressed-secret_path_example =
    derive_child_compressed-secret_path toy_library toy_curve toy_curve 5 4 (replicate 33 2)
      (1 ∷ []) zeros (replicate 32 0) (0 ∷ 1 ∷ []) refl refl refl (ground arith) refl
