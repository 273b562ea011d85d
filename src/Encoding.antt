-- ===== src/Encoding.antt =====
-- The encoding of ECDSA public keys, pkg/encoding/ecdsa.go: the two coordinates as 32 bytes each.
use mpcium.Base.{
  ℕ, ◌≤◌, ◌≡◌, refl, sym, ap, ◌∙◌, Bool, true, false, not, ◌&&◌, ◌||◌, ltb, if◌then◌else◌, ◌==◌,
  Option, none, some, [], ◌∷◌, ◌++◌, Str, arith, length, length-append, take, drop, take-length,
  drop-length, Outcome, ok, err, ◌>>=◌, fail_if, bind_ok, fail_if_ok,
}
use mpcium.Text.BigInt.{set_bytes, bytes, set_bytes-bytes}
use mpcium.Identity.Authorization.{unnegate}
use mpcium.Text.Padding.{zero_padded, length-zero_padded, set_bytes-zero_padded}

-- ecdsa.PublicKey; `on_secp256k1` tells whether its curve has the parameters of secp256k1.
pub record PublicKey : Type 0 where
  pub on_secp256k1 : Bool
  pub x : ℕ
  pub y : ℕ

pub data Error : Type 0 where
  nil_key unsupported_curve coordinate_too_long bad_length not_on_curve : Error

-- EncodeS256PubKey
unfoldable pub encode_s256_pub_key : Option PublicKey → Outcome Error Str
encode_s256_pub_key none = err nil_key
encode_s256_pub_key (some k) = do
  supported ← fail_if (not k.on_secp256k1) unsupported_curve
  short ← fail_if (ltb 32 (length (bytes k.x)) || ltb 32 (length (bytes k.y))) coordinate_too_long
  ok (zero_padded 32 (bytes k.x) ++ zero_padded 32 (bytes k.y))

-- The stripping of the uncompressed prefix.
abbrev pub strip_prefix : Str → Str
strip_prefix [] = []
strip_prefix (b ∷ s) = if (length s == 64) && (b == 4) then s else b ∷ s

-- DecodeECDSAPubKey, by a test for points on secp256k1.
unfoldable pub decode_ecdsa_pub_key : (ℕ → ℕ → Bool) → Str → Outcome Error PublicKey
decode_ecdsa_pub_key is_on_curve encoded = do
  let stripped = strip_prefix encoded
  sized ← fail_if (not (length stripped == 64)) bad_length
  let x = set_bytes (take 32 stripped)
  let y = set_bytes (drop 32 stripped)
  curve ← fail_if (not (is_on_curve x y)) not_on_curve
  ok (record { on_secp256k1 = true; x = x; y = y })

strip_prefix_id : (s : Str) → length s ≡ 64 → strip_prefix s ≡ s
strip_prefix_id [] h = refl
strip_prefix_id (b ∷ s) h = ground arith

both_short : (a b : ℕ) → (ltb 32 a || ltb 32 b) ≡ false → (a ≤ 32) × (b ≤ 32)
both_short a b h = ground arith

value_of : {a b : Str} → Path (Outcome Error Str) (ok a) (ok b) → a ≡ b
value_of h = ground arith

-- The two padded coordinates are read back.
decode_padded :
    (is_on_curve : ℕ → ℕ → Bool) (x y : ℕ)
    → is_on_curve x y ≡ true
    → length (bytes x) ≤ 32
    → length (bytes y) ≤ 32
    → (length (zero_padded 32 (bytes x) ++ zero_padded 32 (bytes y)) ≡ 64)
      × (decode_ecdsa_pub_key is_on_curve (zero_padded 32 (bytes x) ++ zero_padded 32 (bytes y))
          ≡ ok (record { on_secp256k1 = true; x = x; y = y }))
unfolding decode_ecdsa_pub_key
decode_padded is_on_curve x y on hx hy =
    let px = zero_padded 32 (bytes x) in
    let py = zero_padded 32 (bytes y) in
    let len = length-zero_padded 32 (bytes x) hx in
    let sized : length (px ++ py) ≡ 64 =
      omega (arith, length-append px py, len, length-zero_padded 32 (bytes y) hy) in
    let front : set_bytes (take 32 (px ++ py)) ≡ x =
      ap set_bytes (take-length 32 px py len)
      ∙ set_bytes-zero_padded 32 (bytes x)
      ∙ set_bytes-bytes x in
    let back : set_bytes (drop 32 (px ++ py)) ≡ y =
      ap set_bytes (drop-length 32 px py len)
      ∙ set_bytes-zero_padded 32 (bytes y)
      ∙ set_bytes-bytes y in
    (
      sized,
      rw (decode_ecdsa_pub_key, strip_prefix_id (px ++ py) sized, sized, front, back, on) refl,
    )

-- A key on the curve that is encoded is decoded to itself.
decode-encode_ecdsa_pub_key :
    (is_on_curve : ℕ → ℕ → Bool) (k : PublicKey) (encoded : Str)
    → is_on_curve k.x k.y ≡ true
    → encode_s256_pub_key (some k) ≡ ok encoded
    → (length encoded ≡ 64) × (decode_ecdsa_pub_key is_on_curve encoded ≡ ok k)
unfolding encode_s256_pub_key
decode-encode_ecdsa_pub_key is_on_curve k encoded on h =
    let (u, c, h1) = bind_ok (fail_if (not k.on_secp256k1) unsupported_curve) _ h in
    let (v, l, h2) =
      bind_ok
        (fail_if (ltb 32 (length (bytes k.x)) || ltb 32 (length (bytes k.y))) coordinate_too_long) _
        h1 in
    let (short_x, short_y) =
      both_short (length (bytes k.x)) (length (bytes k.y)) (fail_if_ok _ _ l) in
    let (sized, decoded) = decode_padded is_on_curve k.x k.y on short_x short_y in
    rw (sym (value_of h2))
      (sized, decoded ∙ rw (sym (unnegate k.on_secp256k1 (fail_if_ok _ _ c))) refl)
