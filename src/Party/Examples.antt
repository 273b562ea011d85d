-- ===== src/Party/Examples.antt =====
-- The theorems on party ids at concrete node ids.
use mpcium.Base.{ℕ, ◌≡◌, ◌↔◌, true, [], codes}
use mpcium.Party.{create_party_id, compare_party_ids}
use mpcium.Party.Samples.{n1-IsNodeId}
use mpcium.Party.NodeId.{compare_party_ids_iff}

compare_party_ids_iff_example :
    (compare_party_ids
        (create_party_id (codes "u") (codes "n1") [] 1)
        (create_party_id (codes "v") (codes "n1") [] 2)
      ≡ true)
    ↔ ((codes "n1" ≡ codes "n1") × (◌≡◌ {A = ℕ} 1 2))
compare_party_ids_iff_example =
    compare_party_ids_iff (codes "u") (codes "v") [] [] (codes "n1") (codes "n1") 1 2 n1-IsNodeId
      n1-IsNodeId
