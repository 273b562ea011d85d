-- ===== src/Session/Samples.antt =====
-- Test data: toy libraries for the sessions, and two nodes in the key generation of one wallet.
use mpcium.Base.{
  ℕ, zero, suc, ◌≡◌, refl, sym, ap, ◌∙◌, Bool, true, false, Option, none, some, List, [], ◌∷◌, Str,
  codes, length,
}
use mpcium.Encryption.Samples.{toy_aead}
use mpcium.Identity.{TssMessage, Store}
use mpcium.Identity.Samples.{toy, store}
use mpcium.Party.{PartyId, create_party_id}
use mpcium.Text.Pack.{pack, unpack, unpack-pack, pack_option, unpack_option, unpack-pack_option}
use mpcium.Session.{Library, Session, updated}
use mpcium.Session.Topics.{ecdsa, keygen}
use mpcium.Session.Rounds.{kg_round1_message, kg_round1}
use mpcium.Session.Messages.{Network}

unfoldable pub pack_party : PartyId → Str → Str
pack_party p rest = pack p.id (pack p.moniker (p.key ∷ rest))

abbrev pub first_of : Str → ℕ
first_of [] = 0
first_of (n ∷ s) = n

abbrev pub rest_of : Str → Str
rest_of [] = []
rest_of (n ∷ s) = s

unfoldable pub unpack_party : Str → PartyId × Str
unpack_party s =
    let (id, s1) = unpack s in
    let (moniker, s2) = unpack s1 in
    (record { id = id; moniker = moniker; key = first_of s2 }, rest_of s2)

pub unpack-pack_party : (p : PartyId) (rest : Str) → unpack_party (pack_party p rest) ≡ (p, rest)
unfolding unpack_party pack_party
unpack-pack_party p rest =
    rw (unpack-pack p.id (pack p.moniker (p.key ∷ rest)), unpack-pack p.moniker (p.key ∷ rest)) refl

unfoldable pub pack_parties : List PartyId → Str → Str
pack_parties [] rest = rest
pack_parties (p ∷ ps) rest = pack_party p (pack_parties ps rest)

unfoldable pub unpack_parties : ℕ → Str → List PartyId × Str
unpack_parties zero s = ([], s)
unpack_parties (suc n) s =
    let (p, s1) = unpack_party s in let (ps, s2) = unpack_parties n s1 in (p ∷ ps, s2)

pub unpack-pack_parties :
    (ps : List PartyId) (rest : Str)
    → unpack_parties (length ps) (pack_parties ps rest) ≡ (ps, rest)
unfolding unpack_parties pack_parties
unpack-pack_parties [] rest = refl
unpack-pack_parties (p ∷ ps) rest =
    rw (unpack-pack_party p (pack_parties ps rest), unpack-pack_parties ps rest) refl

abbrev pub of_bool : Bool → ℕ
of_bool false = 0
of_bool true = 1

abbrev pub to_bool : ℕ → Bool
to_bool zero = false
to_bool (suc n) = true

pub to_bool-of_bool : (b : Bool) → to_bool (of_bool b) ≡ b
to_bool-of_bool true = refl
to_bool-of_bool false = refl

abbrev pub tail_of : TssMessage → Str
tail_of m =
    of_bool m.is_broadcast
    ∷ (of_bool m.is_to_old_committee
        ∷ (of_bool m.is_to_old_and_new_committees ∷ pack_option m.signature []))

abbrev pub toy_text : TssMessage → Str
toy_text m =
    length m.to
    ∷ pack_parties m.to (pack_party m.sender (pack m.wallet_id (pack m.msg_bytes (tail_of m))))

abbrev pub toy_unmarshal : Str → Option TssMessage
toy_unmarshal s =
    let (to, s1) = unpack_parties (first_of s) (rest_of s) in
    let (sender, s2) = unpack_party s1 in
    let (wallet, s3) = unpack s2 in
    let (bytes, s4) = unpack s3 in
    some (record {
      wallet_id = wallet;
      msg_bytes = bytes;
      is_broadcast = to_bool (first_of s4);
      sender = sender;
      to = to;
      is_to_old_committee = to_bool (first_of (rest_of s4));
      is_to_old_and_new_committees = to_bool (first_of (rest_of (rest_of s4)));
      signature = (unpack_option (rest_of (rest_of (rest_of s4)))).0;
    })

toy_read : (m : TssMessage) → toy_unmarshal (toy_text m) ≡ some m
toy_read m =
    rw
      (
        unpack-pack_parties m.to
            (pack_party m.sender (pack m.wallet_id (pack m.msg_bytes (tail_of m)))),
        unpack-pack_party m.sender (pack m.wallet_id (pack m.msg_bytes (tail_of m))),
        unpack-pack m.wallet_id (pack m.msg_bytes (tail_of m)),
        unpack-pack m.msg_bytes (tail_of m),
        to_bool-of_bool m.is_broadcast,
        to_bool-of_bool m.is_to_old_committee,
        to_bool-of_bool m.is_to_old_and_new_committees,
        unpack-pack_option m.signature [],
      )
      refl

abbrev text_in : Option Str → Str
text_in none = []
text_in (some s) = s

pub toy_unmarshal_marshal :
    (m : TssMessage) (s : Str)
    → Path (Option Str) (some (toy_text m)) (some s)
    → toy_unmarshal s ≡ some m
toy_unmarshal_marshal m s h = ap toy_unmarshal (sym (ap text_in h)) ∙ toy_read m

-- A party is the list of the bytes that it has taken.
abbrev pub toy_library : Library (List Str)
toy_library = record {
  crypto = toy;
  aead = toy_aead;
  parse_ecdsa = λ msg self flag. some kg_round1_message;
  parse_eddsa = λ msg self flag. some kg_round1;
  update_from_bytes = λ p msg sender flag. updated (msg ∷ p);
  marshal = λ m. some (toy_text m);
  unmarshal = toy_unmarshal;
  unmarshal-marshal = toy_unmarshal_marshal;
}

abbrev pub session_of : Str → Str → Store → Session (List Str)
session_of id uuid s = record {
  wallet_id = codes "w";
  curve = ecdsa;
  protocol = keygen;
  self_party_id = create_party_id uuid id (codes "keygen") 1;
  party_ids = [];
  party = [];
  identity_store = s;
}

-- The node n1 with the private key N, and the node n2 with the private key M; they share the key k.
abbrev pub first : Session (List Str)
first = session_of (codes "n1") (codes "u1") (record store {
  private_key = codes "N";
  public_keys = (codes "n2", codes "M") ∷ [];
  symmetric_keys = (codes "n2", some (codes "k")) ∷ [];
})

abbrev pub second : Session (List Str)
second = session_of (codes "n2") (codes "u2") (record store {
  private_key = codes "M";
  public_keys = (codes "n1", codes "N") ∷ [];
  symmetric_keys = (codes "n1", some (codes "k")) ∷ [];
})

abbrev pub network : Network
network = record {
  publishes = true;
  delivers_to_self = λ topic. true;
  delivers_to_other = λ topic. true;
  nonce = λ n. some (codes "no");
}
