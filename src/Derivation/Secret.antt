-- ===== src/Derivation/Secret.antt =====
-- The derivation of the secret child key, which only the holder of the whole key could do, and that the
-- client's derivation of the public key agrees with it.
use mpcium.Base.{
  ℕ, ◌+◌, ◌%◌, ◌≡◌, refl, sym, ap, false, ◌||◌, ◌==◌, leb, Option, none, some, List, [], ◌∷◌,
  length, take, drop, Str, Outcome, ok, err, ◌>>=◌, fail_if, Bool-cases, Option-cases, inl, inr,
  arith, ◌≢◌,
}
use mpcium.Text.BigInt.{set_bytes}
use mpcium.Derivation.{
  Point, Curve, Library, Error, hardened, invalid_il, serialize_compressed, secp256k1_il,
  ed25519_il, valid_child, child_hash, derive_child, derive_path, decode_chain_code,
  derive_secp256k1_child_compressed, derive_ed25519_child_compressed,
}

given : (n : ℕ) → n ≢ 0 → (n == 0) ≡ false
given n h = ground arith

bind_map {ℓ} :
    {A B C : Type ℓ} (r : Outcome Error A) (f : A → B) (g : B → C)
    → ((r >>= λ a. ok (f a)) >>= λ b. ok (g b)) ≡ (r >>= λ a. ok (g (f a)))
bind_map (ok a) f g = refl
bind_map (err e) f g = refl

module _ (lib : Library) (c : Curve) (il_of : ℕ → ℕ → Option ℕ) where
  -- A child of a secret key as BIP-32 has it: the key plus the first half of the hash, in the field of
  -- the group's order.
  unfoldable pub secret_child : ℕ → Str → ℕ → Outcome Error (ℕ × Str)
  secret_child k chain_code index = do
    normal ← fail_if (leb 2147483648 index) hardened
    let ilr = child_hash lib c il_of (c.scalar_base_mult k) chain_code index
    elim (il_of c.order (set_bytes (take 32 ilr))) [
      | none ↦ err invalid_il
      | some il ↦
          let k' = (k + il) % c.order in
          valid_child (some (c.scalar_base_mult k')) >>= λ p. ok (k', drop 32 ilr)
    ]

  unfoldable pub secret_path : ℕ → Str → List ℕ → Outcome Error ℕ
  unfolding secret_child
  secret_path k chain_code [] = ok k
  secret_path k chain_code (index ∷ path) =
      secret_child k chain_code index >>= λ r. secret_path r.0 r.1 path

  -- The public key of a secret key.
  abbrev public_child : Outcome Error (ℕ × Str) → Outcome Error (Point × Str)
  public_child r = r >>= λ s. ok (c.scalar_base_mult s.0, s.1)

  abbrev with_rest {ℓ} : {A : Type ℓ} → Str → A → Outcome Error (A × Str)
  with_rest rest a = ok (a, rest)

  valid_child-bind :
      (k' : ℕ) (rest : Str) (p : Point)
      → c.scalar_base_mult k' ≡ p
      → (valid_child (some p) >>= with_rest rest)
        ≡ public_child (valid_child (some p) >>= λ q. with_rest rest k')
  valid_child-bind k' rest (x, y) e = elim (Bool-cases ((x == 0) || (y == 0))) [
    | inl zero_coordinate ↦ rw zero_coordinate refl
    | inr valid ↦ rw valid (ap (with_rest rest) (sym e))
  ]

  derive_child-secret_child :
      (k : ℕ) (chain_code : Str) (index : ℕ)
      → derive_child lib c il_of (c.scalar_base_mult k) chain_code index
        ≡ public_child (secret_child k chain_code index)
  unfolding derive_child secret_child
  derive_child-secret_child k chain_code index = elim (Bool-cases (leb 2147483648 index)) [
    | inl high ↦ rw high refl
    | inr normal ↦
        let ilr = child_hash lib c il_of (c.scalar_base_mult k) chain_code index in
        elim (Option-cases (il_of c.order (set_bytes (take 32 ilr)))) [
          | inl bad ↦ rw (normal, bad) refl
          | inr (il, good) ↦
              rw (normal, good, c.add-scalar_base_mult k il)
                (valid_child-bind ((k + il) % c.order) (drop 32 ilr) _ refl)
        ]
  ]

  public_child-bind :
      (r : Outcome Error (ℕ × Str)) (path : List ℕ)
      → ((k : ℕ) (chain_code : Str)
          → derive_path lib c il_of (c.scalar_base_mult k) chain_code path
            ≡ (secret_path k chain_code path >>= λ k'. ok (c.scalar_base_mult k')))
      → (public_child r >>= λ q. derive_path lib c il_of q.0 q.1 path)
        ≡ ((r >>= λ q. secret_path q.0 q.1 path) >>= λ k'. ok (c.scalar_base_mult k'))
  public_child-bind (ok (k, rest)) path h = h k rest
  public_child-bind (err e) path h = refl

  pub derive_path-secret_path :
      (k : ℕ) (chain_code : Str) (path : List ℕ)
      → derive_path lib c il_of (c.scalar_base_mult k) chain_code path
        ≡ (secret_path k chain_code path >>= λ k'. ok (c.scalar_base_mult k'))
  unfolding derive_path secret_path
  derive_path-secret_path k chain_code [] = refl
  derive_path-secret_path k chain_code (index ∷ path) =
      rw (derive_child-secret_child k chain_code index) (
        public_child-bind (secret_child k chain_code index) path
          (λ j rest. derive_path-secret_path j rest path))

-- What a client derives from a public key and a path is the key of the secret key that the holder of the
-- secret would derive by the path, on both curves: each derivation succeeds where the other does, and gives
-- the same error where it fails.
pub derive_child_compressed-secret_path :
    (lib : Library) (secp256k1 ed25519 : Curve) (k j : ℕ)
    (master_k master_j chain_code_hex chain_code : Str) (path : List ℕ)
    → decode_chain_code chain_code_hex ≡ ok chain_code
    → length master_k ≡ 33
    → lib.parse_secp256k1 master_k ≡ some (secp256k1.scalar_base_mult k)
    → length master_j ≢ 0
    → lib.parse_ed25519 master_j ≡ some (ed25519.scalar_base_mult j)
    → (derive_secp256k1_child_compressed lib secp256k1 master_k chain_code_hex path ≡ (
        secret_path lib secp256k1 secp256k1_il k chain_code path >>= λ k'.
        ok (serialize_compressed (secp256k1.scalar_base_mult k'))))
      × (derive_ed25519_child_compressed lib ed25519 master_j chain_code_hex path ≡ (
          secret_path lib ed25519 ed25519_il j chain_code path >>= λ j'.
          ok (lib.serialize_ed25519 (ed25519.scalar_base_mult j'))))
unfolding derive_secp256k1_child_compressed derive_ed25519_child_compressed
derive_child_compressed-secret_path lib secp256k1 ed25519 k j master_k master_j chain_code_hex
      chain_code path d l p l' p' =
    (
      rw
          (
            derive_secp256k1_child_compressed,
            l,
            p,
            d,
            derive_path-secret_path lib secp256k1 secp256k1_il k chain_code path,
          )
          (bind_map (secret_path lib secp256k1 secp256k1_il k chain_code path)
            secp256k1.scalar_base_mult serialize_compressed),
      rw
          (
            derive_ed25519_child_compressed,
            given (length master_j) l',
            p',
            d,
            derive_path-secret_path lib ed25519 ed25519_il j chain_code path,
          )
          (bind_map (secret_path lib ed25519 ed25519_il j chain_code path) ed25519.scalar_base_mult
            lib.serialize_ed25519),
    )
