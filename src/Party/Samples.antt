-- ===== src/Party/Samples.antt =====
-- Test data: a tss-lib that sorts nothing, and two node ids.
use mathlib.Core.List.Perm
use mpcium.Base.{[], ◌∷◌, codes, arith}
use mpcium.Party.{Tss}
use mpcium.Party.NodeId.{IsNodeId}

abbrev pub plain_tss : Tss
plain_tss = record {
  uuid = λ n. n ∷ [];
  sort_party_ids = λ ps. ps;
  sort_party_ids-perm = λ ps. Perm.refl ps;
}

pub n1-IsNodeId : IsNodeId (codes "n1")
n1-IsNodeId = ground arith

pub n2-IsNodeId : IsNodeId (codes "n2")
n2-IsNodeId = ground arith
