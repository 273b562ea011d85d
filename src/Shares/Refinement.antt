-- ===== src/Shares/Refinement.antt =====
-- That the stores of a cluster, the key-value store of every node and the Consul that they share, hold what
-- the specification's map does, whichever calls of the sessions of pkg/mpc fail.
use mpcium.Base.{
  ℕ, ◌+◌, ◌<◌, ◌≡◌, refl, ap, ◌∙◌, inl, inr, Bool, true, false, Bool-cases, ◌&&◌, ◌==◌, Option,
  none, some, Option-cases, List, [], ◌∷◌, Str, str_eq, str_eq_iff, lookup, lookup-insert, Outcome,
  ok, err, ◌>>=◌, if◌then◌else◌, arith,
}
use mpcium.Keyinfo
use mpcium.Keyinfo.{KeyInfo, Codec, StoreError, not_found, save}
use mpcium.Session.Topics.{Curve}
use mpcium.Shares.{Library, Stores, Answers, Failure, share_key, generate_key_end, reshare_end}
use mpcium.Shares.Keys.{versioned}
use mpcium.Shares.Cluster.{
  Cluster, empty_cluster, kvstore_of, or_empty, stores_of, put_back, Ending, generated, reshared,
  End, Entries, end_at, end_session, end_sessions, no_entries, is_marshalled, enter, specify,
  specify_all, read_share, with_info, read_entry,
}
use mpcium.Shares.Storing.{loaded, load_share-loaded, stored_share, Stored, store_share-Stored}

module _ {ℓ} {D : Type ℓ} (lib : Library D) where
  abbrev pub read : Option KeyInfo → Outcome StoreError KeyInfo
  read none = err not_found
  read (some info) = ok info

  -- A cluster holds what the map does, at versions after the first.
  pub record Refines (cl : Cluster) (m : Entries D) : Type ℓ where
    pub infos : (key : Str) → Keyinfo.get lib.codec true cl.consul key ≡ read (m.infos key)
    pub shares :
        (node key : Str) (v : ℕ)
        → 0 < v
        → loaded lib (lookup (versioned key v) (kvstore_of node cl))
          ≡ read_share lib (m.shares node key v)
    pub versions : (key : Str) (info : KeyInfo) → m.infos key ≡ some info → 0 < info.version

  kvstore_of-put_back :
      (node n : Str) (cl : Cluster) (st : Stores)
      → kvstore_of n (put_back node cl st) ≡ (if str_eq node n then st.kvstore else kvstore_of n cl)
  unfolding kvstore_of
  kvstore_of-put_back node n cl st =
      ap or_empty (lookup-insert node n st.kvstore cl.kvstores)
      ∙ elim (Bool-cases (str_eq node n)) [ inl e ↦ rw e refl | inr e ↦ rw e refl ]

  read_if :
      (b : Bool) (info : KeyInfo) (r : Outcome StoreError KeyInfo) (o : Option KeyInfo)
      → r ≡ read o
      → (if b then ok info else r) ≡ read (if b then some info else o)
  read_if true info r o h = refl
  read_if false info r o h = h

  read_share_if :
      (b : Bool) (share : D) (r : Outcome Failure D) (o : Option D)
      → r ≡ read_share lib o
      → (if b then ok share else r) ≡ read_share lib (if b then some share else o)
  read_share_if true share r o h = refl
  read_share_if false share r o h = h

  some_if :
      (b : Bool) (info found : KeyInfo) (o : Option KeyInfo)
      → 0 < info.version
      → ((o ≡ some found) → 0 < found.version)
      → (if b then some info else o) ≡ some found
      → 0 < found.version
  some_if true info found o p h e = ground arith
  some_if false info found o p h e = h e

  -- A node's share is stored, or its session stores nothing.
  enter-Refines :
      (node : Str) (ans : Answers) (key : Str) (info : KeyInfo) (share : D) (cl : Cluster)
      (m : Entries D) (after : Stores)
      → 0 < info.version
      → Stored lib
          (is_marshalled lib share && ans.puts)
          ((is_marshalled lib share && ans.puts) && ans.consul_answers)
          key
          info
          share
          (stores_of node cl)
          after
      → Refines cl m
      → Refines (put_back node cl after) (enter lib node ans key info share m)
  unfolding enter
  enter-Refines node ans key info share cl m after p s r =
      let puts = is_marshalled lib share && ans.puts in
      let saves = puts && ans.consul_answers in
      record {
        infos = λ k.
            s.consul k
            ∙ read_if (saves && str_eq key k) info (Keyinfo.get lib.codec true cl.consul k)
                (m.infos k) (r.infos k);
        shares = λ n k v q.
            ap (λ kv. loaded lib (lookup (versioned k v) kv)) (kvstore_of-put_back node n cl after)
            ∙ elim (Bool-cases (str_eq node n)) [
              | inl e ↦ rw e (
                  s.kvstore k v q
                  ∙ read_share_if (puts && (str_eq key k && (info.version == v))) share
                      (loaded lib (lookup (versioned k v) (kvstore_of node cl))) (m.shares n k v)
                      (ap (λ n'. loaded lib (lookup (versioned k v) (kvstore_of n' cl)))
                          ((str_eq_iff node n).0 e)
                        ∙ r.shares n k v q))
              | inr e ↦ rw e (r.shares n k v q ∙ unentered puts share (m.shares n k v))
            ];
        versions = λ k found.
            some_if (saves && str_eq key k) info found (m.infos k) p (r.versions k found);
      }
    where
      unentered :
          (b : Bool) (share : D) (o : Option D)
          → read_share lib o ≡ read_share lib (if b && false then some share else o)
      unentered true share o = refl
      unentered false share o = refl

  skip-Refines :
      (node : Str) (cl : Cluster) (m : Entries D)
      → Refines cl m
      → Refines (put_back node cl (stores_of node cl)) m
  skip-Refines node cl m r = record {
    infos = r.infos;
    shares = λ n k v q.
        ap (λ kv. loaded lib (lookup (versioned k v) kv))
          (kvstore_of-put_back node n cl (stores_of node cl))
        ∙ elim (Bool-cases (str_eq node n)) [
          | inl e ↦ rw e (
              ap (λ n'. loaded lib (lookup (versioned k v) (kvstore_of n' cl)))
                ((str_eq_iff node n).0 e)
              ∙ r.shares n k v q)
          | inr e ↦ rw e (r.shares n k v q)
        ];
    versions = r.versions;
  }

  end_at-Refines :
      (node : Str) (ans : Answers) (e : Ending D) (cl : Cluster) (m : Entries D)
      → Refines cl m
      → Refines
          (put_back node cl (end_at lib ans e (stores_of node cl)))
          (specify lib (record { node = node; answers = ans; ending = e }) m)
  unfolding end_at specify generate_key_end reshare_end
  end_at-Refines node ans (generated c wallet_id peers threshold share) cl m r =
      enter-Refines node ans (share_key c wallet_id) _ share cl m _ (omega arith)
        (store_share-Stored lib ans c wallet_id _ share (stores_of node cl) (omega arith)) r
  end_at-Refines node ans (reshared c wallet_id version peers threshold share) cl m r =
      elim (Bool-cases (lib.has_public_key share)) [
        | inl e ↦
            rw (end_at, reshare_end, specify, e)
              (enter-Refines node ans (share_key c wallet_id)
                (record {
                  participant_peer_ids = peers;
                  threshold = threshold;
                  version = version + 1;
                })
                share cl m _ (omega arith)
                (store_share-Stored lib ans c wallet_id _ share (stores_of node cl) (omega arith))
                r)
        | inr e ↦ rw (end_at, reshare_end, specify, e) (skip-Refines node cl m r)
      ]

  end_sessions_from :
      (es : List (End D)) (cl : Cluster) (m : Entries D)
      → Refines cl m
      → Refines (end_sessions lib es cl) (specify_all lib es m)
  unfolding end_sessions end_session specify_all
  end_sessions_from [] cl m r = r
  end_sessions_from (e ∷ es) cl m r =
      end_sessions_from es (end_session lib e cl) (specify lib e m)
        (end_at-Refines e.node e.answers e.ending cl m r)

  empty-Refines : Refines empty_cluster (no_entries lib)
  unfolding Keyinfo.get Keyinfo.compose_key lookup kvstore_of
  empty-Refines = record {
    infos = λ key. refl;
    shares = λ node key v q. refl;
    versions = λ key info h. cc;
  }

  stored_share_of :
      (c : Curve) (wallet_id node : Str) (cl : Cluster) (m : Entries D)
      → Refines cl m
      → stored_share lib c wallet_id (stores_of node cl)
        ≡ read_entry lib node (share_key c wallet_id) m
  unfolding stored_share read_entry
  stored_share_of c wallet_id node cl m r = elim (Option-cases (m.infos (share_key c wallet_id))) [
    | inl e ↦ rw (stored_share, r.infos (share_key c wallet_id), read_entry, e) refl
    | inr (info, e) ↦
        rw
          (
            stored_share,
            r.infos (share_key c wallet_id),
            read_entry,
            e,
            load_share-loaded lib c wallet_id info.version (stores_of node cl),
            r.shares node (share_key c wallet_id) info.version (r.versions _ info e),
          )
          (paired info (m.shares node (share_key c wallet_id) info.version))
  ]
    where
      paired :
          (info : KeyInfo) (o : Option D)
          → (read_share lib o >>= λ share. ok (info, share)) ≡ with_info lib info (read_share lib o)
      paired info none = refl
      paired info (some share) = refl

  reached :
      (es : List (End D))
      → Refines (end_sessions lib es empty_cluster) (specify_all lib es (no_entries lib))
  reached es = end_sessions_from es empty_cluster (no_entries lib) empty-Refines

  -- What is read in Consul after any history.
  pub end_sessions-infos :
      (es : List (End D)) (key : Str)
      → Keyinfo.get lib.codec true (end_sessions lib es empty_cluster).consul key
        ≡ read ((specify_all lib es (no_entries lib)).infos key)
  end_sessions-infos es key = (reached es).infos key

  -- From empty stores, whatever sessions end one after another at whatever nodes, and whichever of their
  -- calls fail: what a node reads for a wallet on a curve, while its stores answer, is the key info that
  -- the specification's map has for all nodes, with the node's own share at its version; or that there is
  -- no key info, or no such share.
  pub end_sessions-Refines :
      (es : List (End D)) (c : Curve) (wallet_id node : Str)
      → stored_share lib c wallet_id (stores_of node (end_sessions lib es empty_cluster))
        ≡ read_entry lib node (share_key c wallet_id) (specify_all lib es (no_entries lib))
  end_sessions-Refines es c wallet_id node =
      stored_share_of c wallet_id node (end_sessions lib es empty_cluster)
        (specify_all lib es (no_entries lib)) (reached es)
