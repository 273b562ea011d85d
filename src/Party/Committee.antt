-- ===== src/Party/Committee.antt =====
-- The committee that generatePartyIDs of pkg/mpc/party_id.go makes.
use mathlib.Core.List.{Perm}
use mathlib.Core.List.Perm
use mpcium.Base.{
  ℕ, ◌+◌, ◌≡◌, refl, ap, ◌∙◌, Option, none, some, List, [], ◌∷◌, map, if◌then◌else◌, arith, Str,
  str_eq, str_eq_iff, contains, All, Bool-cases, inl, inr,
}
use mpcium.Party.{
  PartyId, Tss, create_party_id, create_party_ids, self_party_id, generate_party_ids,
  party_id_to_node_id, party_ids_to_node_ids,
}
use mpcium.Party.NodeId.{IsNodeId, party_id_to_node_id-create_party_id}

party_id_to_node_id-none : party_id_to_node_id none ≡ []
unfolding party_id_to_node_id
party_id_to_node_id-none = refl

party_ids_to_node_ids-map :
    (ps : List PartyId) → party_ids_to_node_ids ps ≡ map (λ p. party_id_to_node_id (some p)) ps
unfolding party_ids_to_node_ids
party_ids_to_node_ids-map [] = refl
party_ids_to_node_ids-map (p ∷ ps) =
    ap (λ s. party_id_to_node_id (some p) ∷ s) (party_ids_to_node_ids-map ps)

party_ids_to_node_ids-perm :
    {ps qs : List PartyId} → Perm ps qs → Perm (party_ids_to_node_ids ps) (party_ids_to_node_ids qs)
party_ids_to_node_ids-perm {ps} {qs} h =
    rw (party_ids_to_node_ids-map ps, party_ids_to_node_ids-map qs) (Perm.map _ h)

party_ids_to_node_ids-create_party_ids :
    (tss : Tss) (n : ℕ) (label : Str) (version : ℕ) (peers : List Str)
    → All IsNodeId peers
    → party_ids_to_node_ids (create_party_ids tss n label version peers) ≡ peers
unfolding party_ids_to_node_ids create_party_ids
party_ids_to_node_ids-create_party_ids tss n label version [] h = refl
party_ids_to_node_ids-create_party_ids tss n label version (p ∷ ps) h = cc (
  party_id_to_node_id-create_party_id (tss.uuid n) p label version h.0,
  party_ids_to_node_ids-create_party_ids tss (n + 1) label version ps h.1,
)

-- The party ids of a committee are, up to their order, one for each of the given peers, and their
-- node ids are those of the peers.
pub generate_party_ids-perm :
    (tss : Tss) (n : ℕ) (node_id label : Str) (peers : List Str) (version : ℕ)
    → All IsNodeId peers
    → Perm (party_ids_to_node_ids (generate_party_ids tss n node_id label peers version).1) peers
unfolding generate_party_ids
generate_party_ids-perm tss n node_id label peers version h =
    rw (party_ids_to_node_ids-create_party_ids tss n label version peers h) at (
      party_ids_to_node_ids-perm
        (tss.sort_party_ids-perm (create_party_ids tss n label version peers)))

self_party_id-node :
    (tss : Tss) (n : ℕ) (node_id label : Str) (version : ℕ) (peers : List Str)
    (self : Option PartyId)
    → IsNodeId node_id
    → party_id_to_node_id (self_party_id tss n node_id label version peers self)
      ≡ (if contains peers node_id then node_id else party_id_to_node_id self)
unfolding self_party_id contains
self_party_id-node tss n node_id label version [] self v = refl
self_party_id-node tss n node_id label version (p ∷ ps) self v =
    elim (Bool-cases (str_eq p node_id)) [
      | inl e ↦
          rw
            (
              e,
              self_party_id-node tss (n + 1) node_id label version ps
                  (some (create_party_id (tss.uuid n) p label version)) v,
            )
            (ground (
              arith,
              party_id_to_node_id-create_party_id (tss.uuid n) node_id label version v,
              (str_eq_iff p node_id).0 e,
            ))
      | inr e ↦ rw e (self_party_id-node tss (n + 1) node_id label version ps self v)
    ]

-- The node's own party id in a committee is that of the node where the node is among the peers, and
-- otherwise there is none.
pub generate_party_ids_self :
    (tss : Tss) (n : ℕ) (node_id label : Str) (peers : List Str) (version : ℕ)
    → IsNodeId node_id
    → party_id_to_node_id (generate_party_ids tss n node_id label peers version).0
      ≡ (if contains peers node_id then node_id else [])
unfolding generate_party_ids
generate_party_ids_self tss n node_id label peers version v =
    self_party_id-node tss n node_id label version peers none v ∙ rw party_id_to_node_id-none refl
