-- ===== src/Node/Signing.antt =====
-- When a node opens a signing session, and with which committee: CreateSigningSession of
-- pkg/mpc/node.go.
use mathlib.Core.List.{Perm}
use mpcium.Base.{
  ltb_no, ltb_ge, IsOk, contains-select, All-select, ℕ, ◌+◌, ◌≤◌, ◌≡◌, refl, ◌≢◌, ap, ◌∙◌, true,
  ltb, Option, List, Str, contains, length, bind_ok, fail_if, fail_if_ok, ok, All, arith,
}
use mpcium.Keyinfo.{KeyInfo}
use mpcium.Registry.{get_ready_peers_include_self}
use mpcium.Registry.Counts.{self_ready}
use mpcium.Party.{PartyId, Tss, generate_party_ids, party_id_to_node_id, party_ids_to_node_ids}
use mpcium.Party.NodeId.{IsNodeId}
use mpcium.Party.Committee.{generate_party_ids-perm, generate_party_ids_self}
use mpcium.Node.Sessions.{
  Node, purpose_keygen, SessionType, ecdsa, eddsa, other, not_enough_peers, Session, get_key_info,
  get_version, get_ready_peers_for_session, ensure_node_is_participant, signing_session_of_type,
  create_signing_session,
}

-- The participants of the key that the registry reports as ready.
abbrev pub ready_participants : Node → KeyInfo → List Str
ready_participants p info =
    get_ready_peers_for_session info (get_ready_peers_include_self p.peer_registry)

-- What a successful call says of the session: it is for the asked wallet and type, with the
-- threshold of the key and all its ready participants, of which there are more than the threshold,
-- and the node is a participant of the key.
pub record Opened (tss : Tss) (p : Node) (t : SessionType) (wallet_id : Str) (info : KeyInfo)
    (s : Session) : Type 0 where
  pub key : get_key_info p t wallet_id ≡ ok info
  pub session_type : s.session_type ≡ t
  pub wallet : s.wallet_id ≡ wallet_id
  pub threshold : s.threshold ≡ info.threshold
  pub participants : s.participant_peer_ids ≡ ready_participants p info
  pub enough : info.threshold + 1 ≤ length (ready_participants p info)
  pub is_participant : contains info.participant_peer_ids p.node_id ≡ true
  pub version : ℕ
  pub version_read : get_version p t wallet_id ≡ ok version
  pub ids :
      (s.self_party_id, s.party_ids)
      ≡ generate_party_ids tss 0 p.node_id purpose_keygen (ready_participants p info) version

signing_session_fields :
    (t : SessionType) (wallet_id : Str) (info : KeyInfo) (ready : List Str)
    (ids : Option PartyId × List PartyId) (s : Session)
    → signing_session_of_type t wallet_id info ready ids ≡ ok s
    → (s.session_type ≡ t)
      × (s.wallet_id ≡ wallet_id)
      × (s.participant_peer_ids ≡ ready)
      × (s.threshold ≡ info.threshold)
      × (s.self_party_id ≡ ids.0)
      × (s.party_ids ≡ ids.1)
unfolding signing_session_of_type
signing_session_fields (other x) wallet_id info ready ids s h = cc
signing_session_fields ecdsa wallet_id info ready ids s h = ground arith
signing_session_fields eddsa wallet_id info ready ids s h = ground arith

ensured :
    (p : Node) (info : KeyInfo) {x : Unit {0}}
    → ensure_node_is_participant p info ≡ ok x
    → contains info.participant_peer_ids p.node_id ≡ true
unfolding ensure_node_is_participant
ensured p info h = ground arith

-- A signing session is only opened for a readable key of which the node is a participant and of
-- which more participants than the threshold are ready. It is for the asked wallet and type, has the
-- threshold of the key, exactly its ready participants, and the party ids that are generated for
-- them at the version of the key.
pub create_signing_session-Opened :
    (tss : Tss) (p : Node) (t : SessionType) (wallet_id : Str) (s : Session)
    → create_signing_session tss p t wallet_id ≡ ok s
    → (info : KeyInfo) × Opened tss p t wallet_id info s
unfolding create_signing_session
create_signing_session-Opened tss p t wallet_id s h =
    let (v, ev, h1) = bind_ok (get_version p t wallet_id) _ h in
    let (info, ei, h2) = bind_ok (get_key_info p t wallet_id) _ h1 in
    let ready = ready_participants p info in
    let (_, en, h3) =
      bind_ok (fail_if (ltb (length ready) (info.threshold + 1)) not_enough_peers) _ h2 in
    let (_, ep, h4) = bind_ok (ensure_node_is_participant p info) _ h3 in
    let f = signing_session_fields t wallet_id info ready _ s h4 in
    (
      info,
      record {
        key = ei;
        session_type = f.0;
        wallet = f.1;
        threshold = f.3;
        participants = f.2;
        enough = ltb_no (length ready) (info.threshold + 1) (fail_if_ok _ not_enough_peers en);
        is_participant = ensured p info ep;
        version = v;
        version_read = ev;
        ids = ground (arith, f.4, f.5);
      },
    )

pub ready_participants_self :
    (p : Node) (info : KeyInfo)
    → p.peer_registry.node_id ≡ p.node_id
    → contains info.participant_peer_ids p.node_id ≡ true
    → contains (ready_participants p info) p.node_id ≡ true
unfolding get_ready_peers_for_session
ready_participants_self p info e h =
    contains-select (contains (get_ready_peers_include_self p.peer_registry)) p.node_id
      info.participant_peer_ids
    ∙ rw (h, ← e, self_ready p.peer_registry) refl

-- In a signing session of a node that its registry knows by its own id, the node has a party id of
-- its own, and the party ids are, up to order, one for each participant.
pub create_signing_session-committee :
    (tss : Tss) (p : Node) (t : SessionType) (wallet_id : Str) (s : Session)
    → p.peer_registry.node_id ≡ p.node_id
    → IsNodeId p.node_id
    → ((info : KeyInfo)
        → get_key_info p t wallet_id ≡ ok info
        → All IsNodeId info.participant_peer_ids)
    → create_signing_session tss p t wallet_id ≡ ok s
    → (party_id_to_node_id s.self_party_id ≡ p.node_id)
      × Perm (party_ids_to_node_ids s.party_ids) s.participant_peer_ids
unfolding get_ready_peers_for_session
create_signing_session-committee tss p t wallet_id s e v vs h =
    let (info, o) = create_signing_session-Opened tss p t wallet_id s h in
    let ready = ready_participants p info in
    (
      ap (λ (x : Option PartyId × List PartyId). party_id_to_node_id x.0) o.ids
          ∙ generate_party_ids_self tss 0 p.node_id purpose_keygen ready o.version v
          ∙ rw (ready_participants_self p info e o.is_participant) refl,
      rw (o.participants, ap (λ (x : Option PartyId × List PartyId). x.1) o.ids)
          (generate_party_ids-perm tss 0 p.node_id purpose_keygen ready o.version
            (All-select IsNodeId _ info.participant_peer_ids (vs info o.key))),
    )

other_unreadable :
    (p : Node) (x wallet_id : Str) (info : KeyInfo) → get_key_info p (other x) wallet_id ≢ ok info
unfolding get_key_info
other_unreadable p x wallet_id info h = ground arith

-- The other way round: a readable key of which the node is a participant and of which more
-- participants than the threshold are ready gets a signing session.
create_signing_session-opens :
    (tss : Tss) (p : Node) (t : SessionType) (wallet_id : Str) (info : KeyInfo)
    → get_key_info p t wallet_id ≡ ok info
    → info.threshold + 1 ≤ length (ready_participants p info)
    → contains info.participant_peer_ids p.node_id ≡ true
    → IsOk (create_signing_session tss p t wallet_id)
unfolding create_signing_session get_version
create_signing_session-opens tss p (other x) wallet_id info k n m =
    absurd (other_unreadable p x wallet_id info k)
create_signing_session-opens tss p ecdsa wallet_id info k n m = rw (k, ltb_ge _ _ n, m) tt
create_signing_session-opens tss p eddsa wallet_id info k n m = rw (k, ltb_ge _ _ n, m) tt
