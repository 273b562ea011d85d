-- ===== src/Exchange/Examples.antt =====
-- Two nodes with toy keys, and the witnesses of the exchange of keys.
use mpcium.Base.{
  ◌+◌, ◌≡◌, refl, ap, true, lookup, Option, some, [], ◌∷◌, ◌++◌, Str, codes, str_eq, str_eq_refl,
  length, arith, ok,
}
use mpcium.Text.Pack.{pack, unpack, unpack-pack, pack_option, unpack_option, unpack-pack_option}
use mpcium.Identity.{EcdhMessage}
use mpcium.Identity.Samples.{toy, store}
use mpcium.Identity.Messages.{get_symmetric_key, encrypt_message, decrypt_message}
use mpcium.Encryption.Samples.{toy_aead}
use mpcium.Exchange.{Ecdh, EcdhSession, receive, broadcast_public_key, derive_consistent_info}
use mpcium.Identity.Sealing.{IsKeyPair}
use mpcium.Exchange.Agreement.{receive-agrees, receive-decrypt_message}

abbrev pub toy_marshal : EcdhMessage → Str
toy_marshal m = pack m.from (pack m.public_key (pack m.timestamp (pack_option m.signature [])))

abbrev pub toy_unmarshal : Str → Option EcdhMessage
toy_unmarshal s =
    let (from, s1) = unpack s in
    let (key, s2) = unpack s1 in
    let (time, s3) = unpack s2 in
    some
      (record { from = from; public_key = key; timestamp = time; signature = (unpack_option s3).0 })

pub toy_unmarshal_marshal : (m : EcdhMessage) → toy_unmarshal (toy_marshal m) ≡ some m
toy_unmarshal_marshal m =
    rw
      (
        unpack-pack m.from (pack m.public_key (pack m.timestamp (pack_option m.signature []))),
        unpack-pack m.public_key (pack m.timestamp (pack_option m.signature [])),
        unpack-pack m.timestamp (pack_option m.signature []),
        unpack-pack_option m.signature [],
      )
      refl

pub toy_ecdh_comm :
    (a b : Str)
    → Path (Option Str) (some ((length a + length b) ∷ [])) (some ((length b + length a) ∷ []))
toy_ecdh_comm a b = ap (λ n. some (n ∷ [])) (omega arith)

abbrev pub toy_exchange : Ecdh
toy_exchange = record {
  public_key = λ a. a;
  is_public_key = λ k. true;
  ecdh = λ a b. some ((length a + length b) ∷ []);
  hkdf = λ secret info. some secret;
  marshal = toy_marshal;
  unmarshal = toy_unmarshal;
  public_key-IsKey = λ a. refl;
  ecdh_comm = toy_ecdh_comm;
  unmarshal-marshal = toy_unmarshal_marshal;
}

-- Node n1 with the private key N, and node n2 with the private key M.
abbrev pub first : EcdhSession
first = record {
  node_id = codes "n1";
  peer_ids = codes "n2" ∷ [];
  private_key = some (codes "x");
  identity_store = record store {
    private_key = codes "N";
    public_keys = (codes "n2", codes "M") ∷ [];
  };
  has_callback = true;
}

abbrev pub second : EcdhSession
second = record {
  node_id = codes "n2";
  peer_ids = codes "n1" ∷ [];
  private_key = some (codes "yz");
  identity_store = record store {
    private_key = codes "M";
    public_keys = (codes "n1", codes "N") ∷ [];
  };
  has_callback = true;
}

abbrev sent_by : EcdhSession → Str → Str → Str
sent_by e key signature = toy_marshal (record {
  from = e.node_id;
  public_key = key;
  timestamp = codes "t";
  signature = some signature;
})

toy-IsKeyPair : (key : Str) → IsKeyPair toy key key
toy-IsKeyPair key m = str_eq_refl (key ++ m)

abbrev sent_first : Str
sent_first = sent_by first (codes "x") (codes "Nn1xt")

abbrev sent_second : Str
sent_second = sent_by second (codes "yz") (codes "Mn2yzt")

receive-agrees_example :
    (get_symmetric_key ((receive toy_exchange toy first sent_second).0).identity_store (codes "n2")
      ≡ some (some (3 ∷ [])))
    × (get_symmetric_key
          ((receive toy_exchange toy second sent_first).0).identity_store
          (codes "n1")
        ≡ some (some (3 ∷ [])))
unfolding lookup str_eq broadcast_public_key derive_consistent_info
receive-agrees_example =
    receive-agrees toy_exchange toy (codes "t") (codes "t") first second (codes "x") (codes "yz")
      sent_first sent_second (3 ∷ []) (codes "M", refl, toy-IsKeyPair (codes "M"))
      (codes "N", refl, toy-IsKeyPair (codes "N")) refl refl refl refl refl refl

receive-decrypt_message_example :
    (sealed : Str) × (encrypt_message toy_aead
        ((receive toy_exchange toy first sent_second).0).identity_store
        (some (codes "no"))
        (codes "text")
        (codes "n2")
      ≡ ok sealed)
    × (decrypt_message toy_aead
          ((receive toy_exchange toy second sent_first).0).identity_store
          sealed
          (codes "n1")
        ≡ ok (codes "text"))
unfolding lookup str_eq broadcast_public_key derive_consistent_info
receive-decrypt_message_example =
    receive-decrypt_message toy_exchange toy toy_aead (codes "t") (codes "t") first second
      (codes "x") (codes "yz") sent_first sent_second (3 ∷ []) (3 ∷ []) (codes "no") (codes "text")
      (codes "M", refl, toy-IsKeyPair (codes "M")) (codes "N", refl, toy-IsKeyPair (codes "N")) refl
      refl refl refl refl refl refl refl refl
