-- ===== src/Shares/Atomicity.antt =====
-- What a resharing leaves of which some calls fail at some of its nodes: Reshare of the resharing sessions
-- of pkg/mpc, on the stores of a cluster.
use mpcium.Base.{
  ℕ, ◌+◌, ◌≡◌, refl, sym, ap, ◌∙◌, inl, inr, Bool, true, false, Bool-cases, ◌&&◌, ◌||◌, ◌==◌,
  if◌then◌else◌, Option, some, List, [], ◌∷◌, ◌++◌, map, Str, str_eq, str_eq_refl, arith,
}
use mathlib.Core.Path.{subst}
use mpcium.Keyinfo.{KeyInfo}
use mpcium.Session.Topics.{Curve}
use mpcium.Shares.{Library, Answers, share_key}
use mpcium.Shares.Cluster.{
  empty_cluster, stores_of, reshared, End, Entries, end_sessions, no_entries, is_marshalled, enter,
  specify, specify_all, read_share, with_info, read_entry,
}
use mpcium.Shares.Storing.{stored_share}
use mpcium.Shares.Refinement.{end_sessions-Refines}

-- A node's end of a resharing, with which of its calls succeed and its save data.
pub record Part {ℓ} (D : Type ℓ) : Type ℓ where
  pub node : Str
  pub answers : Answers
  pub share : D

later : (v : ℕ) → (v + 1 == v) ≡ false
later v = ground arith

same : (v : ℕ) → (v == v) ≡ true
same v = ground arith

module _ {ℓ} {D : Type ℓ} (lib : Library D) where
  -- Whether a node has put its share, and whether it has saved the key info too.
  abbrev pub has_put : Part D → Bool
  has_put x = lib.has_public_key x.share && (is_marshalled lib x.share && x.answers.puts)

  unfoldable pub is_saved : List (Part D) → Bool
  is_saved [] = false
  is_saved (x ∷ xs) = (has_put x && x.answers.consul_answers) || is_saved xs

  -- The share that a node has put last, or what it had before.
  unfoldable pub last_put : Str → Option D → List (Part D) → Option D
  last_put node had [] = had
  last_put node had (x ∷ xs) =
      last_put node (if has_put x && str_eq x.node node then some x.share else had) xs

  module _ (c : Curve) (wallet_id : Str) (version : ℕ) (peers : List Str) (threshold : ℕ) where
    abbrev pub part_end : Part D → End D
    part_end x = record {
      node = x.node;
      answers = x.answers;
      ending = reshared c wallet_id version peers threshold x.share;
    }

    abbrev pub reshared_info : KeyInfo
    reshared_info = record {
      participant_peer_ids = peers;
      threshold = threshold;
      version = version + 1;
    }

    abbrev key : Str
    key = share_key c wallet_id

    specify-infos :
        (x : Part D) (m : Entries D)
        → (specify lib (part_end x) m).infos key
          ≡ (if has_put x && x.answers.consul_answers then some reshared_info else m.infos key)
    unfolding specify enter
    specify-infos x m = elim (Bool-cases (lib.has_public_key x.share)) [
      | inr e ↦ rw (specify, ◌&&◌, e) refl
      | inl e ↦
          rw (specify, enter, e)
            (at_key ((is_marshalled lib x.share && x.answers.puts) && x.answers.consul_answers))
    ]
      where
        at_key :
            (b : Bool)
            → (if b && str_eq key key then some reshared_info else m.infos key)
              ≡ (if b then some reshared_info else m.infos key)
        at_key b = rw (str_eq_refl key) (ground arith)

    specify-shares :
        (x : Part D) (m : Entries D) (node : Str) (u : ℕ)
        → (specify lib (part_end x) m).shares node key u ≡ (
            if has_put x && (str_eq x.node node && (version + 1 == u))
            then some x.share
            else m.shares node key u)
    unfolding specify enter
    specify-shares x m node u = elim (Bool-cases (lib.has_public_key x.share)) [
      | inr e ↦ rw (specify, ◌&&◌, e) refl
      | inl e ↦ rw (specify, enter, e, str_eq_refl key) refl
    ]

    specify_all-infos :
        (xs : List (Part D)) (m : Entries D)
        → (specify_all lib (map part_end xs) m).infos key
          ≡ (if is_saved xs then some reshared_info else m.infos key)
    unfolding specify_all is_saved
    specify_all-infos [] m = refl
    specify_all-infos (x ∷ xs) m =
        specify_all-infos xs (specify lib (part_end x) m)
        ∙ ap (λ o. if is_saved xs then some reshared_info else o) (specify-infos x m)
        ∙ either (has_put x && x.answers.consul_answers) (is_saved xs)
      where
        either :
            (a b : Bool)
            → (if b then some reshared_info else (if a then some reshared_info else m.infos key))
              ≡ (if a || b then some reshared_info else m.infos key)
        either a b = ground arith

    -- The new version has what the node has put, and the old one is as it was.
    specify_all-new_share :
        (xs : List (Part D)) (m : Entries D) (node : Str)
        → (specify_all lib (map part_end xs) m).shares node key (version + 1)
          ≡ last_put node (m.shares node key (version + 1)) xs
    unfolding specify_all last_put
    specify_all-new_share [] m node = refl
    specify_all-new_share (x ∷ xs) m node =
        specify_all-new_share xs (specify lib (part_end x) m) node
        ∙ ap (λ o. last_put node o xs)
            (specify-shares x m node (version + 1)
              ∙ rw (same (version + 1)) (at_node (has_put x) (str_eq x.node node)))
      where
        at_node :
            (a b : Bool)
            → (if a && (b && true) then some x.share else m.shares node key (version + 1))
              ≡ (if a && b then some x.share else m.shares node key (version + 1))
        at_node a b = ground arith

    specify_all-old_share :
        (xs : List (Part D)) (m : Entries D) (node : Str)
        → (specify_all lib (map part_end xs) m).shares node key version ≡ m.shares node key version
    unfolding specify_all
    specify_all-old_share [] m node = refl
    specify_all-old_share (x ∷ xs) m node =
        specify_all-old_share xs (specify lib (part_end x) m) node
        ∙ specify-shares x m node version
        ∙ rw (later version) (never (has_put x) (str_eq x.node node))
      where
        never :
            (a b : Bool)
            → (if a && (b && false) then some x.share else m.shares node key version)
              ≡ m.shares node key version
        never a b = ground arith

    specify_all-append :
        (xs ys : List (End D)) (m : Entries D)
        → specify_all lib (xs ++ ys) m ≡ specify_all lib ys (specify_all lib xs m)
    unfolding specify_all
    specify_all-append [] ys m = refl
    specify_all-append (x ∷ xs) ys m = specify_all-append xs ys (specify lib x m)

    read_entry-reshared :
        (xs : List (Part D)) (m : Entries D) (node : Str) (info : KeyInfo)
        → m.infos key ≡ some info
        → info.version ≡ version
        → read_entry lib node key (specify_all lib (map part_end xs) m) ≡ (
            if is_saved xs
            then with_info lib reshared_info
                (read_share lib (last_put node (m.shares node key (version + 1)) xs))
            else read_entry lib node key m)
    unfolding read_entry
    read_entry-reshared xs m node info h v =
        let at_version : (u : ℕ) → Type ℓ =
          λ u. (specify_all lib (map part_end xs) m).shares node key u ≡ m.shares node key u in
        let unchanged : at_version info.version =
          subst at_version (sym v) (specify_all-old_share xs m node) in
        elim (Bool-cases (is_saved xs)) [
          | inl e ↦
              rw (read_entry, specify_all-infos xs m, e)
                (ap (λ o. with_info lib reshared_info (read_share lib o))
                  (specify_all-new_share xs m node))
          | inr e ↦
              rw (read_entry, specify_all-infos xs m, e, h)
                (ap (λ o. with_info lib info (read_share lib o)) unchanged)
        ]

    -- When a resharing ends at some nodes, after any history, from the version of the wallet's key info, and
    -- whichever calls fail at each of them: if no node has saved the new key info, every node reads for the
    -- wallet what it read before; if one has, every node reads the new key info, with the share that it
    -- has put itself, or, where it has put none, with what it had at the new version, if anything.
    pub end_sessions-reshared :
        (es : List (End D)) (xs : List (Part D)) (node : Str) (info : KeyInfo)
        → (specify_all lib es (no_entries lib)).infos (share_key c wallet_id) ≡ some info
        → info.version ≡ version
        → stored_share lib c wallet_id
            (stores_of node (end_sessions lib (es ++ map part_end xs) empty_cluster))
          ≡ (if is_saved xs
              then with_info lib reshared_info (
                  read_share lib (
                    last_put node
                      ((specify_all lib es (no_entries lib)).shares node
                        (share_key c wallet_id)
                        (version + 1))
                      xs))
              else stored_share lib c wallet_id
                  (stores_of node (end_sessions lib es empty_cluster)))
    end_sessions-reshared es xs node info h v =
        end_sessions-Refines lib (es ++ map part_end xs) c wallet_id node
        ∙ ap (read_entry lib node key) (specify_all-append es (map part_end xs) (no_entries lib))
        ∙ read_entry-reshared xs (specify_all lib es (no_entries lib)) node info h v
        ∙ ap
            (λ r.
              if is_saved xs
              then with_info lib reshared_info (
                  read_share lib (
                    last_put node
                      ((specify_all lib es (no_entries lib)).shares node key (version + 1)) xs))
              else r)
            (sym (end_sessions-Refines lib es c wallet_id node))
