-- ===== src/Shares/Signing.antt =====
-- Which share a session works with: Init of the signing sessions of pkg/mpc, and
-- loadOldShareDataGeneric of pkg/mpc/session.go.
use mpcium.Base.{
  ℕ, zero, suc, ◌+◌, ◌≤◌, ◌≡◌, refl, ap, ◌∙◌, true, false, some, List, Str, length, ltb_ge, ok,
  ◌==◌, arith,
}
use mpcium.Keyinfo
use mpcium.Keyinfo.{KeyInfo}
use mpcium.Session.Topics.{Curve}
use mpcium.Shares.{
  Library, Stores, Answers, share_key, wallet_id_with_version, load_share,
  load_old_share_data_generic, init_signing,
}
use mpcium.Shares.Cluster.{
  End, empty_cluster, stores_of, end_sessions, no_entries, specify_all, with_info, read_share,
  read_info, read_entry,
}
use mpcium.Shares.Storing.{all_answer, stored_share}
use mpcium.Shares.Refinement.{read, end_sessions-infos, end_sessions-Refines}

nonzero : (v : ℕ) → (suc v == 0) ≡ false
nonzero v = ground arith

module _ {ℓ} {D : Type ℓ} (lib : Library D) where
  -- At every version, and whichever calls of the key-value store succeed, the share that a resharing
  -- starts from is the one that a signing session of that version loads.
  pub load_old_share_data_generic_lem :
      (ans : Answers) (c : Curve) (wallet_id : Str) (version : ℕ) (st : Stores)
      → load_old_share_data_generic lib ans c wallet_id version st
        ≡ load_share lib ans c wallet_id version st
  unfolding load_old_share_data_generic load_share wallet_id_with_version
  load_old_share_data_generic_lem ans c wallet_id zero st = refl
  load_old_share_data_generic_lem ans c wallet_id (suc v) st = rw (nonzero v) refl

  -- Init with enough participants gives what the stores hold for the wallet.
  init_signing-stored_share :
      (c : Curve) (wallet_id : Str) (participants : List Str) (st : Stores) (info : KeyInfo)
      → Keyinfo.get lib.codec true st.consul (share_key c wallet_id) ≡ ok info
      → info.threshold + 1 ≤ length participants
      → info.threshold + 1 ≤ length (lib.intersect participants info.participant_peer_ids)
      → init_signing lib all_answer c wallet_id participants st ≡ stored_share lib c wallet_id st
  unfolding init_signing stored_share
  init_signing-stored_share c wallet_id participants st info k enough compatible =
      rw (init_signing, stored_share, k, ltb_ge _ _ enough, ltb_ge _ _ compatible) refl

  -- After sessions that ended one after another at whatever nodes, whichever of their calls failed: where
  -- the specification's map has a key info for the wallet, and there are more participants than its
  -- threshold, also among its peers, Init of a signing session at a node whose stores answer loads that
  -- key info and the share that the map has for this node at its version; it fails where the map has none,
  -- as for a node that has left the committee.
  pub init_signing-end_sessions :
      (es : List (End D)) (c : Curve) (wallet_id node : Str) (participants : List Str)
      (info : KeyInfo)
      → (specify_all lib es (no_entries lib)).infos (share_key c wallet_id) ≡ some info
      → info.threshold + 1 ≤ length participants
      → info.threshold + 1 ≤ length (lib.intersect participants info.participant_peer_ids)
      → init_signing lib all_answer c wallet_id participants
          (stores_of node (end_sessions lib es empty_cluster))
        ≡ with_info lib info (
            read_share lib (
              (specify_all lib es (no_entries lib)).shares node
                (share_key c wallet_id)
                info.version))
  unfolding read_entry
  init_signing-end_sessions es c wallet_id node participants info h enough compatible =
      init_signing-stored_share c wallet_id participants
        (stores_of node (end_sessions lib es empty_cluster)) info
        (end_sessions-infos lib es (share_key c wallet_id) ∙ ap (read lib) h) enough compatible
      ∙ end_sessions-Refines lib es c wallet_id node
      ∙ ap
          (read_info lib (λ info.
            (specify_all lib es (no_entries lib)).shares node (share_key c wallet_id) info.version))
          h
