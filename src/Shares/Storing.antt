-- ===== src/Shares/Storing.antt =====
-- What a session's end stores of a share and its key info, and what is read of it: store_share and
-- load_share of the sessions of pkg/mpc.
use mpcium.Base.{
  ℕ, ◌<◌, ◌≡◌, refl, sym, ap, ◌∙◌, inl, inr, Bool, true, false, Bool-cases, ◌&&◌, ◌==◌, Option,
  none, some, Option-cases, Str, str_eq, str_eq_iff, Dict, lookup, insert, lookup-insert, Outcome,
  ok, err, ◌>>=◌, if◌then◌else◌, ==_iff,
}
use mpcium.Keyinfo
use mpcium.Keyinfo.{KeyInfo, Codec, StoreError, not_found, save}
use mpcium.Keyinfo.Laws.{get-save}
use mpcium.Session.Topics.{Curve}
use mpcium.Shares.{
  Library, Stores, Answers, Failure, key_missing, share_key, wallet_id_with_version, get_value,
  load_share, from_keyinfo, save_key_info, store_share,
}
use mpcium.Shares.Keys.{versioned, share_key-wallet_id_with_version, versioned-injective}
use mpcium.Shares.Cluster.{is_marshalled}

abbrev pub all_answer : Answers
all_answer = record { puts = true; gets = true; consul_answers = true }

-- Two versioned keys are the same where the keys and the versions are.
str_eq-versioned :
    (a b : Str) (v u : ℕ)
    → 0 < v
    → 0 < u
    → str_eq (versioned a v) (versioned b u) ≡ (str_eq a b && (v == u))
str_eq-versioned a b v u hv hu = elim (Bool-cases (str_eq (versioned a v) (versioned b u))) [
  | inl e ↦
      let (k, n) = versioned-injective a b v u hv hu ((str_eq_iff _ _).0 e) in
      rw (e, (str_eq_iff a b).1 k, (==_iff v u).1 n) refl
  | inr e ↦ elim (Bool-cases (str_eq a b)) [
    | inr f ↦ rw (e, f) refl
    | inl f ↦ elim (Bool-cases (v == u)) [
      | inr g ↦ rw (e, f, g) refl
      | inl g ↦
          let same : versioned a v ≡ versioned b u =
            ap (λ k. versioned k v) ((str_eq_iff a b).0 f) ∙ ap (versioned b) ((==_iff v u).0 g) in
          absurd (true_not_false' (sym ((str_eq_iff _ _).1 same) ∙ e))
    ]
  ]
]
  where
    true_not_false' : true ≡ false → ⊥
    true_not_false' h = cc

-- A failed save leaves Consul as it was.
save_failed :
    (codec : Codec) (consul : Dict Str) (key : Str) (info : KeyInfo)
    → (save codec false consul key info).0 ≡ consul
unfolding save
save_failed codec consul key info = refl

module _ {ℓ} {D : Type ℓ} (lib : Library D) where
  -- What is made of what the key-value store has for a key.
  abbrev pub loaded : Option Str → Outcome Failure D
  loaded o = elim o [ none ↦ err key_missing | some value ↦ ok value ] >>= λ bytes.
      elim (lib.unmarshal_share bytes) [
        | none ↦ err Failure.unmarshal_failed
        | some share ↦ ok share
      ]

  pub load_share-loaded :
      (c : Curve) (wallet_id : Str) (version : ℕ) (st : Stores)
      → load_share lib all_answer c wallet_id version st
        ≡ loaded (lookup (versioned (share_key c wallet_id) version) st.kvstore)
  unfolding load_share get_value
  load_share-loaded c wallet_id version st =
      ap (λ key. loaded (lookup key st.kvstore))
        (share_key-wallet_id_with_version c wallet_id version)

  -- The key info that a node reads of a wallet, with its share at that version, while Consul and the
  -- key-value store answer.
  unfoldable pub stored_share : Curve → Str → Stores → Outcome Failure (KeyInfo × D)
  unfolding load_share
  stored_share c wallet_id st =
      from_keyinfo (Keyinfo.get lib.codec true st.consul (share_key c wallet_id)) >>= λ info.
      load_share lib all_answer c wallet_id info.version st >>= λ share. ok (info, share)

  -- What store_share leaves, by what succeeds.
  pub record Stored (puts saves : Bool) (key : Str) (info : KeyInfo) (share : D)
      (before after : Stores) : Type ℓ where
    pub consul :
        (k : Str)
        → Keyinfo.get lib.codec true after.consul k
          ≡ (if saves && str_eq key k then ok info else Keyinfo.get lib.codec true before.consul k)
    pub kvstore :
        (k : Str) (v : ℕ)
        → 0 < v
        → loaded (lookup (versioned k v) after.kvstore) ≡ (
            if puts && (str_eq key k && (info.version == v))
            then ok share
            else loaded (lookup (versioned k v) before.kvstore))

  kvstore-put :
      (key k : Str) (info : KeyInfo) (share : D) (bytes : Str) (v : ℕ) (m : Dict Str)
      → lib.marshal_share share ≡ some bytes
      → 0 < info.version
      → 0 < v
      → loaded (lookup (versioned k v) (insert (versioned key info.version) bytes m)) ≡ (
          if str_eq key k && (info.version == v)
          then ok share
          else loaded (lookup (versioned k v) m))
  kvstore-put key k info share bytes v m e p q =
      ap loaded (
        lookup-insert (versioned key info.version) (versioned k v) bytes m
        ∙ ap (λ b. if b then some bytes else lookup (versioned k v) m)
            (str_eq-versioned key k info.version v p q))
      ∙ elim (Bool-cases (str_eq key k && (info.version == v))) [
        | inl h ↦ rw (h, lib.unmarshal-marshal_share share bytes e) refl
        | inr h ↦ rw h refl
      ]

  pub store_share-Stored :
      (ans : Answers) (c : Curve) (wallet_id : Str) (info : KeyInfo) (share : D) (st : Stores)
      → 0 < info.version
      → Stored
          (is_marshalled lib share && ans.puts)
          ((is_marshalled lib share && ans.puts) && ans.consul_answers)
          (share_key c wallet_id)
          info
          share
          st
          (store_share lib ans c wallet_id info share st).0
  unfolding store_share save_key_info
  store_share-Stored ans c wallet_id info share st p =
      elim (Option-cases (lib.marshal_share share)) [
        | inl m ↦ rw (store_share, ◌&&◌, m) (record { consul = λ k. refl; kvstore = λ k v q. refl })
        | inr (bytes, m) ↦ elim (Bool-cases ans.puts) [
          | inr u ↦
              rw (store_share, ◌&&◌, m, u) (record { consul = λ k. refl; kvstore = λ k v q. refl })
          | inl u ↦
              let put : (k : Str) (v : ℕ)
                  → 0 < v
                  → loaded (
                      lookup (versioned k v) (
                        insert (share_key c (wallet_id_with_version wallet_id info.version)) bytes
                          st.kvstore))
                    ≡ (if str_eq (share_key c wallet_id) k && (info.version == v)
                        then ok share
                        else loaded (lookup (versioned k v) st.kvstore)) =
                λ k v q.
                  rw (share_key-wallet_id_with_version c wallet_id info.version)
                    (kvstore-put (share_key c wallet_id) k info share bytes v st.kvstore m p q) in
              elim (Bool-cases ans.consul_answers) [
                | inr a ↦
                    rw (store_share, ◌&&◌, m, u, save_key_info, a)
                      (record {
                        consul = λ k.
                            rw (save_failed lib.codec st.consul (share_key c wallet_id) info) refl;
                        kvstore = put;
                      })
                | inl a ↦
                    rw (store_share, ◌&&◌, m, u, save_key_info, a)
                      (record {
                        consul = λ k. get-save lib.codec st.consul (share_key c wallet_id) k info;
                        kvstore = put;
                      })
              ]
        ]
      ]
