-- ===== src/Keyinfo/Samples.antt =====
-- Test data: a codec of key infos.
use mpcium.Base.{ℕ, zero, suc, ◌≡◌, refl, ap, ◌∙◌, Option, none, some, List, [], ◌∷◌, Str}
use mpcium.Keyinfo.{KeyInfo, Codec}

-- A codec: the two numbers, then the bytes of each id, each plus one, and a zero.
abbrev pub write_id : Str → Str → Str
write_id [] rest = 0 ∷ rest
write_id (c ∷ s) rest = suc c ∷ write_id s rest

abbrev pub write_ids : List Str → Str
write_ids [] = []
write_ids (id ∷ ids) = write_id id (write_ids ids)

abbrev pub cons_first : ℕ → List Str → List Str
cons_first c [] = []
cons_first c (id ∷ ids) = (c ∷ id) ∷ ids

abbrev pub read_ids : Str → List Str
read_ids [] = []
read_ids (zero ∷ s) = [] ∷ read_ids s
read_ids (suc c ∷ s) = cons_first c (read_ids s)

abbrev pub read_info : Str → Option KeyInfo
read_info [] = none
read_info (t ∷ []) = none
read_info (t ∷ v ∷ s) =
    some (record { participant_peer_ids = read_ids s; threshold = t; version = v })

pub read_ids-write_id : (id rest : Str) → read_ids (write_id id rest) ≡ id ∷ read_ids rest
read_ids-write_id [] rest = refl
read_ids-write_id (c ∷ s) rest = ap (cons_first c) (read_ids-write_id s rest)

pub read_ids-write_ids : (ids : List Str) → read_ids (write_ids ids) ≡ ids
read_ids-write_ids [] = refl
read_ids-write_ids (id ∷ ids) =
    read_ids-write_id id (write_ids ids) ∙ ap (λ r. id ∷ r) (read_ids-write_ids ids)

abbrev pub plain_codec : Codec
plain_codec = record {
  marshal = λ info. info.threshold ∷ info.version ∷ write_ids info.participant_peer_ids;
  unmarshal = read_info;
  unmarshal-marshal = λ info.
      ap
        (λ ids. some (record {
          participant_peer_ids = ids;
          threshold = info.threshold;
          version = info.version;
        }))
        (read_ids-write_ids info.participant_peer_ids);
}
