-- ===== src/Party/NodeId.antt =====
-- Reading the node id back from a party id of pkg/mpc/party_id.go.
use mpcium.Base.{
  ℕ, ◌<◌, ◌≡◌, ◌≢◌, ◌↔◌, sym, ap, ◌∙◌, true, false, some, [], ◌∷◌, ◌++◌, ◌==◌, if◌then◌else◌, arith,
  Str, codes, str_eq_iff, All, cons-injective, append_cancel, length, length-append, All-append,
  All-mono, Bool-cases, inl, inr,
}
use mpcium.Text.BigInt.{bytes, bytes-set_bytes, StartsNonzero}
use mpcium.Text.Decimal.{print_decimal, print_decimal-IsDigit, print_decimal-injective, IsDigit}
use mpcium.Text.Split.{before, before-append, before-All, trim_space, trim_space-All, is_space}
use mpcium.Party.{
  party_key, create_party_id, party_id_to_node_id, compare_party_ids, backward_compatible_version,
}

-- The node ids that the cluster uses (UUID texts are such): bytes, the first not zero, with no colon
-- and no white space.
pub record IsNodeId (id : Str) : Type 0 where
  pub starts : StartsNonzero id
  pub small : All (λ c. c < 256) id
  pub plain : All (λ c. c ≢ b':') id
  pub spaceless : All (λ c. is_space c ≡ false) id

StartsNonzero-append : (a b : Str) → StartsNonzero a → StartsNonzero (a ++ b)
StartsNonzero-append [] b h = elim h [ ]
StartsNonzero-append (c ∷ a) b h = h

-- The bytes that a party id of a node id and a version is read back as.
abbrev packed : Str → ℕ → Str
packed id version =
    if version == backward_compatible_version
    then id
    else id ++ (codes ":" ++ print_decimal version)

bytes-party_key :
    (id : Str) (version : ℕ) → IsNodeId id → bytes (party_key id version) ≡ packed id version
unfolding party_key
bytes-party_key id version v = elim (Bool-cases (version == 0)) [
  | inl e ↦ rw e (bytes-set_bytes id v.starts v.small)
  | inr e ↦ rw e (
      bytes-set_bytes _ (StartsNonzero-append id _ v.starts) (
        All-append _ id _ v.small
          (omega arith, All-mono IsDigit _ (λ c d. omega arith) _ (print_decimal-IsDigit version))))
]

before-packed : (id : Str) (version : ℕ) → IsNodeId id → before b':' (packed id version) ≡ id
before-packed id version v = elim (Bool-cases (version == 0)) [
  | inl e ↦ rw e (before-All b':' id v.plain)
  | inr e ↦ rw e (before-append b':' id (print_decimal version) v.plain)
]

pub before-party_key :
    (id : Str) (version : ℕ) → IsNodeId id → before b':' (bytes (party_key id version)) ≡ id
before-party_key id version v =
    ap (before b':') (bytes-party_key id version v) ∙ before-packed id version v

-- The node id of a party id is the one that the party id was created for, at every version.
pub party_id_to_node_id-create_party_id :
    (uuid id label : Str) (version : ℕ)
    → IsNodeId id
    → party_id_to_node_id (some (create_party_id uuid id label version)) ≡ id
unfolding party_id_to_node_id create_party_id
party_id_to_node_id-create_party_id uuid id label version v =
    ap (λ s. trim_space (before b':' s)) (bytes-party_key id version v)
    ∙ ap trim_space (before-packed id version v)
    ∙ trim_space-All id v.spaceless

append_longer : (a b : Str) (c : ℕ) → a ≢ a ++ c ∷ b
append_longer a b c e = absurd (omega (arith, ap length e, length-append {0} a (c ∷ b)))

packed-injective : (id : Str) (v w : ℕ) → packed id v ≡ packed id w → v ≡ w
packed-injective id v w e = elim (Bool-cases (v == 0)) [
  | inl ev ↦ elim (Bool-cases (w == 0)) [
    | inl ew ↦ ground arith
    | inr ew ↦ absurd (append_longer id (print_decimal w) b':' (rw (ev, ew) at e))
  ]
  | inr ev ↦ elim (Bool-cases (w == 0)) [
    | inl ew ↦ absurd (append_longer id (print_decimal v) b':' (sym (rw (ev, ew) at e)))
    | inr ew ↦
        print_decimal-injective v w
          (cons-injective b':' _ _ (append_cancel id _ _ (rw (ev, ew) at e)))
  ]
]

-- Two party ids compare equal exactly when they are of one node and of one version: a node has
-- different party ids in the old and in the new committee of a resharing, and different nodes have
-- different party ids.
pub compare_party_ids_iff :
    (u u' l l' a b : Str) (v w : ℕ)
    → IsNodeId a
    → IsNodeId b
    → (compare_party_ids (create_party_id u a l v) (create_party_id u' b l' w) ≡ true)
      ↔ ((a ≡ b) × (v ≡ w))
unfolding compare_party_ids create_party_id
compare_party_ids_iff u u' l l' a b v w va vb = (
  λ h.
      let e = (str_eq_iff _ _).0 h in
      let same : a ≡ b =
        sym (before-packed a v va)
        ∙ ap (before b':') (sym (bytes-party_key a v va) ∙ e ∙ bytes-party_key b w vb)
        ∙ before-packed b w vb in
      (
        same,
        packed-injective b v w (
            ap (λ s. packed s v) (sym same)
            ∙ sym (bytes-party_key a v va)
            ∙ e
            ∙ bytes-party_key b w vb),
      ),
  λ (h : (a ≡ b) × (v ≡ w)). (str_eq_iff _ _).1 (cc (h.0, h.1)),
)
