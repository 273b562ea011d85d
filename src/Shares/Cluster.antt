-- ===== src/Shares/Cluster.antt =====
-- The stores of a cluster, on which the sessions of pkg/mpc end: every node has its own key-value store,
-- and all nodes share one Consul. An end writes its node's store first and Consul last, so that ends which
-- overlap leave what they would leave one after another, in the order of their writes to Consul. With what the two kinds of stores are to hold after any history.
use mpcium.Base.{
  ℕ, ◌+◌, Bool, true, false, ◌&&◌, if◌then◌else◌, ◌==◌, Option, none, some, List, [], ◌∷◌, Str,
  str_eq, Dict, lookup, insert, Outcome, ok, err,
}
use mpcium.Keyinfo.{KeyInfo, not_found}
use mpcium.Party.{default_version}
use mpcium.Session.Topics.{Curve}
use mpcium.Shares.{
  Library, Stores, Answers, Failure, key_missing, keyinfo_failed, share_key, generate_key_end,
  reshare_end,
}

-- The key-value stores by the ids of their nodes, and Consul.
pub record Cluster : Type 0 where
  pub kvstores : Dict (Dict Str)
  pub consul : Dict Str

abbrev pub empty_cluster : Cluster
empty_cluster = record { kvstores = []; consul = [] }

abbrev pub or_empty : Option (Dict Str) → Dict Str
or_empty none = []
or_empty (some m) = m

unfoldable pub kvstore_of : Str → Cluster → Dict Str
kvstore_of node cl = or_empty (lookup node cl.kvstores)

-- What a node works on, and the cluster after it.
abbrev pub stores_of : Str → Cluster → Stores
stores_of node cl = record { kvstore = kvstore_of node cl; consul = cl.consul }

abbrev pub put_back : Str → Cluster → Stores → Cluster
put_back node cl st = record { kvstores = insert node st.kvstore cl.kvstores; consul = st.consul }

-- What a session leaves when it ends: the save data of a key generation with the peers and the threshold,
-- or that of a resharing of a wallet at a version, with the new ones.
pub data Ending {ℓ} (D : Type ℓ) : Type ℓ where
  generated : Curve → Str → List Str → ℕ → D → Ending D
  reshared : Curve → Str → ℕ → List Str → ℕ → D → Ending D

-- The end of a session at a node, with which of its calls succeed.
pub record End {ℓ} (D : Type ℓ) : Type ℓ where
  pub node : Str
  pub answers : Answers
  pub ending : Ending D

-- The specification's map: the key info of a wallet's key, for all nodes, and the shares of each node by
-- the key and the version.
pub record Entries {ℓ} (D : Type ℓ) : Type ℓ where
  pub infos : Str → Option KeyInfo
  pub shares : Str → Str → ℕ → Option D

module _ {ℓ} {D : Type ℓ} (lib : Library D) where
  unfoldable pub end_at : Answers → Ending D → Stores → Stores
  unfolding generate_key_end reshare_end
  end_at ans (generated c wallet_id peers threshold share) st =
      (generate_key_end lib ans c wallet_id peers threshold share st).0
  end_at ans (reshared c wallet_id version peers threshold share) st =
      (reshare_end lib ans c wallet_id version peers threshold share st).0

  unfoldable pub end_session : End D → Cluster → Cluster
  unfolding end_at
  end_session e cl = put_back e.node cl (end_at e.answers e.ending (stores_of e.node cl))

  unfoldable pub end_sessions : List (End D) → Cluster → Cluster
  unfolding end_session
  end_sessions [] cl = cl
  end_sessions (e ∷ es) cl = end_sessions es (end_session e cl)

  abbrev pub no_entries : Entries D
  no_entries = record { infos = λ key. none; shares = λ node key version. none }

  abbrev pub is_marshalled : D → Bool
  is_marshalled share = elim (lib.marshal_share share) [ none ↦ false | some bytes ↦ true ]

  -- A share that is put is entered for its node, and where the key info is saved too, it is entered for
  -- all nodes.
  unfoldable pub enter : Str → Answers → Str → KeyInfo → D → Entries D → Entries D
  enter node ans key info share m =
      let puts = is_marshalled share && ans.puts in
      record {
        infos = λ k. if (puts && ans.consul_answers) && str_eq key k then some info else m.infos k;
        shares = λ n k v.
            if puts && (str_eq node n && (str_eq key k && (info.version == v)))
            then some share
            else m.shares n k v;
      }

  -- A generated key is entered at the default version; a resharing at the next version, except by a
  -- node that is only in the old committee.
  unfoldable pub specify : End D → Entries D → Entries D
  unfolding share_key enter
  specify e m = elim e.ending [
    | generated c wallet_id peers threshold share ↦
        enter e.node e.answers (share_key c wallet_id)
          (record {
            participant_peer_ids = peers;
            threshold = threshold;
            version = default_version;
          })
          share m
    | reshared c wallet_id version peers threshold share ↦
        let entered =
          enter e.node e.answers (share_key c wallet_id)
            (record { participant_peer_ids = peers; threshold = threshold; version = version + 1 })
            share m in
        if lib.has_public_key share then entered else m
  ]

  unfoldable pub specify_all : List (End D) → Entries D → Entries D
  unfolding specify
  specify_all [] m = m
  specify_all (e ∷ es) m = specify_all es (specify e m)

  abbrev pub read_share : Option D → Outcome Failure D
  read_share none = err key_missing
  read_share (some share) = ok share

  abbrev pub with_info : KeyInfo → Outcome Failure D → Outcome Failure (KeyInfo × D)
  with_info info (ok share) = ok (info, share)
  with_info info (err e) = err e

  -- What a node is to read for a key: the key info, with its own share at that version.
  abbrev pub read_info : (KeyInfo → Option D) → Option KeyInfo → Outcome Failure (KeyInfo × D)
  read_info share none = err (keyinfo_failed not_found)
  read_info share (some info) = with_info info (read_share (share info))

  unfoldable pub read_entry : Str → Str → Entries D → Outcome Failure (KeyInfo × D)
  read_entry node key m = read_info (λ info. m.shares node key info.version) (m.infos key)
