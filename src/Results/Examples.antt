-- ===== src/Results/Examples.antt =====
-- The theorems on the way of results, with a toy codec.
use mpcium.Base.{
  ◌≡◌, refl, sym, ap, ◌∙◌, Bool, true, false, Option, none, some, [], ◌∷◌, Str, codes,
}
use mpcium.Requests
use mpcium.Requests.{Channel, Client}
use mpcium.Requests.Clients.{run, new_client}
use mpcium.Text.Pack.{pack, unpack, unpack-pack}
use mpcium.Results.{
  SigningResultEvent, Json, Message, header, ack, signing_result_subscription_subject, timed_out,
  handle_advisory, sanitize_consumer_name, result_consumer_name,
}
use mpcium.Results.TimedOut.{tx_id, deliver, handle_advisory-deliver}
use mpcium.Results.Consumers.{sanitize_consumer_name_shared}

abbrev flag : Bool → Str
flag true = 1 ∷ []
flag false = []

abbrev toy_marshal : SigningResultEvent → Str
toy_marshal e = pack e.result_type (
    pack e.error_code (
      pack e.error_reason (
        pack (flag e.is_timeout) (
          pack e.network_internal_code (
            pack e.wallet_id
              (pack e.tx_id (pack e.r (pack e.s (pack e.signature_recovery e.signature)))))))))

is_flag : Str → Bool
is_flag [] = false
is_flag (c ∷ s) = true

is_flag-flag : (b : Bool) → is_flag (flag b) ≡ b
unfolding is_flag
is_flag-flag true = refl
is_flag-flag false = refl

toy_unmarshal : Str → Option SigningResultEvent
toy_unmarshal t0 =
    let (result_type, t1) = unpack t0 in
    let (error_code, t2) = unpack t1 in
    let (error_reason, t3) = unpack t2 in
    let (is_timeout, t4) = unpack t3 in
    let (code, t5) = unpack t4 in
    let (wallet, t6) = unpack t5 in
    let (tx, t7) = unpack t6 in
    let (r, t8) = unpack t7 in
    let (s, t9) = unpack t8 in
    let (recovery, signature) = unpack t9 in
    some (record {
      result_type = result_type;
      error_code = error_code;
      error_reason = error_reason;
      is_timeout = is_flag is_timeout;
      network_internal_code = code;
      wallet_id = wallet;
      tx_id = tx;
      r = r;
      s = s;
      signature_recovery = recovery;
      signature = signature;
    })

toy_unmarshal-marshal : (e : SigningResultEvent) → toy_unmarshal (toy_marshal e) ≡ some e
unfolding toy_unmarshal
toy_unmarshal-marshal e = simp (unpack-pack, is_flag-flag)

the_text : Option Str → Str
the_text none = []
the_text (some t) = t

same_text : (s t : Str) → some s ≡ some t → s ≡ t
unfolding the_text
same_text s t e = ap the_text e

abbrev toy_json : Json
toy_json = record {
  unmarshal_advisory = λ s. some (codes "mpc-signing", 3);
  unmarshal_result = toy_unmarshal;
  marshal_result = λ e. some (toy_marshal e);
  unmarshal-marshal_result =
      λ e t q. ap toy_unmarshal (sym (same_text (toy_marshal e) t q)) ∙ toy_unmarshal-marshal e;
}

-- A request, as it reads.
abbrev request : SigningResultEvent
request = record {
  result_type = [];
  error_code = [];
  error_reason = [];
  is_timeout = false;
  network_internal_code = codes "eth";
  wallet_id = codes "w";
  tx_id = codes "t";
  r = [];
  s = [];
  signature_recovery = [];
  signature = [];
}

abbrev failed : Message
failed = record {
  subject = codes "mpc.signing_request.*";
  body = toy_marshal request;
  headers = (codes "ClientID", codes "svc") ∷ [];
}

abbrev id_of : Str → Str
id_of s = s

abbrev start : Client Str SigningResultEvent
start = new_client id_of tx_id

handle_advisory-deliver_example :
    (m : Message) × (ch : Channel) × (handle_advisory toy_json (λ stream seq. some failed) []
      ≡ m ∷ [])
    × (m.subject ≡ signing_result_subscription_subject (header (codes "ClientID") failed))
    × ((Requests.sign_transaction (codes "t") true start).1 ≡ some ch)
    × ((deliver toy_json m (Requests.sign_transaction (codes "t") true start).0).1 ≡ ack)
    × ((deliver toy_json m (Requests.sign_transaction (codes "t") true start).0).0.signing_wait.sent
        ≡ (ch, timed_out request)
          ∷ (Requests.sign_transaction (codes "t") true start).0.signing_wait.sent)
    × ((timed_out request).result_type ≡ codes "error")
    × ((timed_out request).error_code ≡ codes "ERROR_MAX_DELIVERY_ATTEMPTS")
unfolding run
handle_advisory-deliver_example =
    handle_advisory-deliver id_of toy_json (λ stream seq. some failed) []
      (toy_marshal (timed_out request)) 3 failed request start [] refl refl
      (toy_unmarshal-marshal request) refl tt

sanitize_consumer_name_shared_example :
    sanitize_consumer_name (result_consumer_name (codes "mpc_signing_result") (codes "svc-a"))
    ≡ sanitize_consumer_name (result_consumer_name (codes "mpc_signing_result") (codes "svc_a"))
sanitize_consumer_name_shared_example =
    sanitize_consumer_name_shared (codes "mpc_signing_result") (codes "svc") (codes "a")
