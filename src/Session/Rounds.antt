-- ===== src/Session/Rounds.antt =====
-- The rounds of the messages, pkg/mpc/ecdsa_rounds.go and pkg/mpc/eddsa_rounds.go.
use mpcium.Base.{ℕ, ◌≡◌, Bool, true, false, ◌||◌, ap, sym, Option, none, some, Str, codes, str_eq}

-- The types of tss-lib's messages that the two switches name, and any other.
pub data EcdsaContent : Type 0 where
  kg_round1_message kg_round2_message1 kg_round2_message2 kg_round3_message sign_round1_message1
        sign_round1_message2 sign_round2_message sign_round3_message sign_round4_message
        sign_round5_message sign_round6_message sign_round7_message sign_round8_message
        sign_round9_message dg_round1_message dg_round2_message1 dg_round2_message2
        dg_round3_message1 dg_round3_message2 dg_round4_message1 dg_round4_message2
        other_ecdsa_message :
      EcdsaContent

pub data EddsaContent : Type 0 where
  kg_round1 kg_round2_1 kg_round2_2 sign_round1 sign_round2 sign_round3 dg_round1 dg_round2
        dg_round3_1 dg_round3_2 dg_round4 other_eddsa_message :
      EddsaContent

pub record RoundInfo : Type 0 where
  pub index : ℕ
  pub round_msg : Str

abbrev round : ℕ → Str → Option RoundInfo
round i msg = some (record { index = i; round_msg = msg })

-- The switch of GetEcdsaMsgRound; `none` is its error.
unfoldable pub ecdsa_round : EcdsaContent → Option RoundInfo
ecdsa_round kg_round1_message = round 0 (codes "KGRound1Message")
ecdsa_round kg_round2_message1 = round 1 (codes "KGRound2Message1")
ecdsa_round kg_round2_message2 = round 2 (codes "KGRound2Message2")
ecdsa_round kg_round3_message = round 3 (codes "KGRound3Message")
ecdsa_round sign_round1_message1 = round 0 (codes "SignRound1Message1")
ecdsa_round sign_round1_message2 = round 1 (codes "SignRound1Message2")
ecdsa_round sign_round2_message = round 2 (codes "SignRound2Message")
ecdsa_round sign_round3_message = round 3 (codes "SignRound3Message")
ecdsa_round sign_round4_message = round 4 (codes "SignRound4Message")
ecdsa_round sign_round5_message = round 5 (codes "SignRound5Message")
ecdsa_round sign_round6_message = round 6 (codes "SignRound6Message")
ecdsa_round sign_round7_message = round 7 (codes "SignRound7Message")
ecdsa_round sign_round8_message = round 8 (codes "SignRound8Message")
ecdsa_round sign_round9_message = round 9 (codes "SignRound9Message")
ecdsa_round dg_round1_message = round 0 (codes "DGRound1Message")
ecdsa_round dg_round2_message1 = round 1 (codes "DGRound2Message1")
ecdsa_round dg_round2_message2 = round 2 (codes "DGRound2Message2")
ecdsa_round dg_round3_message1 = round 3 (codes "DGRound3Message1")
ecdsa_round dg_round3_message2 = round 4 (codes "DGRound3Message2")
ecdsa_round dg_round4_message1 = round 5 (codes "DGRound4Message1")
ecdsa_round dg_round4_message2 = round 6 (codes "DGRound4Message2")
ecdsa_round other_ecdsa_message = none

-- The switch of GetEddsaMsgRound.
unfoldable pub eddsa_round : EddsaContent → Option RoundInfo
eddsa_round kg_round1 = round 0 (codes "KGRound1Message")
eddsa_round kg_round2_1 = round 1 (codes "KGRound2Message1")
eddsa_round kg_round2_2 = round 2 (codes "KGRound2Message2")
eddsa_round sign_round1 = round 0 (codes "SignRound1Message")
eddsa_round sign_round2 = round 0 (codes "SignRound2Message")
eddsa_round sign_round3 = round 0 (codes "SignRound3Message")
eddsa_round dg_round1 = round 0 (codes "DGRound1Message")
eddsa_round dg_round2 = round 1 (codes "DGRound2Message")
eddsa_round dg_round3_1 = round 2 (codes "DGRound3Message1")
eddsa_round dg_round3_2 = round 3 (codes "DGRound3Message2")
eddsa_round dg_round4 = round 4 (codes "DGRound4Message")
eddsa_round other_eddsa_message = none

-- IsReshareRound
unfoldable pub is_reshare_round : Str → Bool
is_reshare_round msg =
    str_eq msg (codes "DGRound1Message")
    || (str_eq msg (codes "DGRound2Message1")
        || (str_eq msg (codes "DGRound2Message2")
            || (str_eq msg (codes "DGRound3Message1")
                || (str_eq msg (codes "DGRound3Message2")
                    || (str_eq msg (codes "DGRound4Message1")
                        || str_eq msg (codes "DGRound4Message2"))))))

abbrev name_of : Option RoundInfo → Str
name_of none = codes ""
name_of (some r) = r.round_msg

-- The messages of tss-lib's ECDSA resharing.
unfoldable pub is_reshare_content : EcdsaContent → Bool
is_reshare_content dg_round1_message = true
is_reshare_content dg_round2_message1 = true
is_reshare_content dg_round2_message2 = true
is_reshare_content dg_round3_message1 = true
is_reshare_content dg_round3_message2 = true
is_reshare_content dg_round4_message1 = true
is_reshare_content dg_round4_message2 = true
is_reshare_content _ = false

-- IsReshareRound tells, of the round of every message that GetEcdsaMsgRound knows, whether the
-- message is one of the resharing.
pub is_reshare_round-ecdsa_round :
    (c : EcdsaContent) (r : RoundInfo)
    → ecdsa_round c ≡ some r
    → is_reshare_round r.round_msg ≡ is_reshare_content c
unfolding ecdsa_round is_reshare_round is_reshare_content str_eq
is_reshare_round-ecdsa_round other_ecdsa_message r h = cc
is_reshare_round-ecdsa_round kg_round1_message r h = ap is_reshare_round (sym (ap name_of h))
is_reshare_round-ecdsa_round kg_round2_message1 r h = ap is_reshare_round (sym (ap name_of h))
is_reshare_round-ecdsa_round kg_round2_message2 r h = ap is_reshare_round (sym (ap name_of h))
is_reshare_round-ecdsa_round kg_round3_message r h = ap is_reshare_round (sym (ap name_of h))
is_reshare_round-ecdsa_round sign_round1_message1 r h = ap is_reshare_round (sym (ap name_of h))
is_reshare_round-ecdsa_round sign_round1_message2 r h = ap is_reshare_round (sym (ap name_of h))
is_reshare_round-ecdsa_round sign_round2_message r h = ap is_reshare_round (sym (ap name_of h))
is_reshare_round-ecdsa_round sign_round3_message r h = ap is_reshare_round (sym (ap name_of h))
is_reshare_round-ecdsa_round sign_round4_message r h = ap is_reshare_round (sym (ap name_of h))
is_reshare_round-ecdsa_round sign_round5_message r h = ap is_reshare_round (sym (ap name_of h))
is_reshare_round-ecdsa_round sign_round6_message r h = ap is_reshare_round (sym (ap name_of h))
is_reshare_round-ecdsa_round sign_round7_message r h = ap is_reshare_round (sym (ap name_of h))
is_reshare_round-ecdsa_round sign_round8_message r h = ap is_reshare_round (sym (ap name_of h))
is_reshare_round-ecdsa_round sign_round9_message r h = ap is_reshare_round (sym (ap name_of h))
is_reshare_round-ecdsa_round dg_round1_message r h = ap is_reshare_round (sym (ap name_of h))
is_reshare_round-ecdsa_round dg_round2_message1 r h = ap is_reshare_round (sym (ap name_of h))
is_reshare_round-ecdsa_round dg_round2_message2 r h = ap is_reshare_round (sym (ap name_of h))
is_reshare_round-ecdsa_round dg_round3_message1 r h = ap is_reshare_round (sym (ap name_of h))
is_reshare_round-ecdsa_round dg_round3_message2 r h = ap is_reshare_round (sym (ap name_of h))
is_reshare_round-ecdsa_round dg_round4_message1 r h = ap is_reshare_round (sym (ap name_of h))
is_reshare_round-ecdsa_round dg_round4_message2 r h = ap is_reshare_round (sym (ap name_of h))
