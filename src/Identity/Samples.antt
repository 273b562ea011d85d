-- ===== src/Identity/Samples.antt =====
-- Test data: a toy signature scheme, in which a signature is the key followed by the message, and a
-- message that its initiator and one authorizer have signed.
use mpcium.Base.{true, none, some, [], ◌∷◌, ◌++◌, codes, str_eq}
use mpcium.Identity.{Crypto, ed25519, ed25519_key, InitiatorMessage, Store}

abbrev pub toy : Crypto
toy = record {
  ed25519_verify = λ key raw sig. str_eq (key ++ raw) sig;
  ed25519_sign = λ key raw. key ++ raw;
  p256_verify = λ key raw sig. str_eq (key ++ raw) sig;
  marshal_authorizer = λ id raw sig. some (id ++ (raw ++ sig));
  marshal_tss = λ wallet bytes broadcast sender to old both. some (wallet ++ (bytes ++ sender));
  marshal_ecdh = λ from key time. some (from ++ (key ++ time));
}

abbrev pub store : Store
store = record {
  initiator_algorithm = ed25519;
  initiator_ed25519 = codes "I";
  initiator_p256 = none;
  auth_enabled = true;
  required_authorizers = codes "a1" ∷ [];
  authorizer_algorithms = (codes "a1", ed25519) ∷ [];
  cached_authorizer_keys = (codes "a1", ed25519_key (codes "A")) ∷ [];
  public_keys = (codes "n1", codes "N") ∷ [];
  private_key = codes "S";
  symmetric_keys = [];
}

abbrev pub message : InitiatorMessage
message = record {
  raw = some (codes "w");
  sig = codes "Iw";
  initiator_id = codes "w";
  authorizer_signatures = record { authorizer_id = codes "a1"; signature = codes "AwwIw" } ∷ [];
}
