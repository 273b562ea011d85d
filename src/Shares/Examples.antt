-- ===== src/Shares/Examples.antt =====
-- The theorems on key shares with toy libraries: a wallet that is generated by two nodes and handed on to
-- others.
use mpcium.Base.{
  ◌≡◌, refl, true, false, some, List, [], ◌∷◌, ◌++◌, map, Str, codes, str_eq, ok, err, sym, arith,
}
use mpcium.Keyinfo.{KeyInfo}
use mpcium.Keyinfo.Samples.{plain_codec}
use mpcium.Session.Topics.{ecdsa}
use mpcium.Shares.{Library, Answers, key_missing, share_key, init_signing}
use mpcium.Shares.Cluster.{
  End, generated, empty_cluster, stores_of, end_sessions, no_entries, specify, specify_all, enter,
  read_entry,
}
use mpcium.Shares.Storing.{all_answer, stored_share}
use mpcium.Shares.Refinement.{end_sessions-Refines}
use mpcium.Shares.Signing.{init_signing-end_sessions}
use mpcium.Shares.Atomicity.{Part, part_end, is_saved, last_put, end_sessions-reshared}

-- A share is a text, and the public key is missing in the empty one.
abbrev texts : Library Str
texts = record {
  codec = plain_codec;
  marshal_share = λ d. some d;
  unmarshal_share = λ s. some s;
  unmarshal-marshal_share = λ d s h. sym h;
  has_public_key = λ d. true;
  encode_s256_public_key = λ d. some d;
  serialize_compressed = λ d. d;
  intersect = λ xs ys. ys;
}

abbrev full_disk : Answers
full_disk = record { puts = false; gets = true; consul_answers = true }

abbrev made_at : Str → Str → End Str
made_at node share = record {
  node = node;
  answers = all_answer;
  ending = generated ecdsa (codes "w") (codes "n1" ∷ codes "n2" ∷ []) 1 share;
}

abbrev generations : List (End Str)
generations = made_at (codes "n1") (codes "s1") ∷ made_at (codes "n2") (codes "s2") ∷ []

-- The first node has no room for its new share.
abbrev parts : List (Part Str)
parts =
    record { node = codes "n1"; answers = full_disk; share = codes "t1" }
    ∷ record { node = codes "n2"; answers = all_answer; share = codes "t2" }
    ∷ []

abbrev handed_on : List (End Str)
handed_on =
    generations ++ map (part_end texts ecdsa (codes "w") 1 (codes "n1" ∷ codes "n2" ∷ []) 1) parts

end_sessions-Refines_example :
    stored_share texts ecdsa
      (codes "w")
      (stores_of (codes "n1") (end_sessions texts handed_on empty_cluster))
    ≡ read_entry texts
        (codes "n1")
        (share_key ecdsa (codes "w"))
        (specify_all texts handed_on (no_entries texts))
end_sessions-Refines_example = end_sessions-Refines texts handed_on ecdsa (codes "w") (codes "n1")

abbrev first_info : KeyInfo
first_info = record {
  participant_peer_ids = codes "n1" ∷ codes "n2" ∷ [];
  threshold = 1;
  version = 1;
}

abbrev second_info : KeyInfo
second_info = record first_info { version = 2 }

-- The second node signs with its new share.
init_signing-end_sessions_example :
    init_signing texts all_answer ecdsa
      (codes "w")
      (codes "n1" ∷ codes "n2" ∷ [])
      (stores_of (codes "n2") (end_sessions texts handed_on empty_cluster))
    ≡ ok (second_info, codes "t2")
unfolding share_key specify_all specify enter str_eq
init_signing-end_sessions_example =
    init_signing-end_sessions texts handed_on ecdsa (codes "w") (codes "n2")
      (codes "n1" ∷ codes "n2" ∷ []) second_info refl (omega arith) (omega arith)

-- The first node has lost its way to sign: the new key info is read, and there is no share.
end_sessions-reshared_example :
    stored_share texts ecdsa
      (codes "w")
      (stores_of (codes "n1") (end_sessions texts handed_on empty_cluster))
    ≡ err key_missing
unfolding share_key specify_all specify enter str_eq is_saved last_put
end_sessions-reshared_example =
    end_sessions-reshared texts ecdsa (codes "w") 1 (codes "n1" ∷ codes "n2" ∷ []) 1 generations
      parts (codes "n1") first_info refl refl
