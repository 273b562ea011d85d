-- ===== src/Results.antt =====
-- The way of a result to its client: Enqueue and Dequeue of pkg/messaging/message_queue.go, the names of
-- consumers, the results of requests whose deliveries are used up in pkg/eventconsumer/timeout_consumer.go,
-- and OnSignResult of pkg/client/client.go.
pub mod TimedOut
pub mod Consumers
mod Examples
use mpcium.Base.{
  ℕ, Bool, true, false, not, ◌≡◌, ◌||◌, ◌&&◌, if◌then◌else◌, ◌==◌, leb, Option, none, some, List,
  [], ◌∷◌, ◌++◌, Str, codes, str_eq, Dict, lookup, Outcome, ok, err,
}
use mpcium.Event.{is_empty, signing_result_subject, scoped_operation_id}

-- SigningResultEvent
pub record SigningResultEvent : Type 0 where
  pub result_type : Str
  pub error_code : Str
  pub error_reason : Str
  pub is_timeout : Bool
  pub network_internal_code : Str
  pub wallet_id : Str
  pub tx_id : Str
  pub r : Str
  pub s : Str
  pub signature_recovery : Str
  pub signature : Str

-- encoding/json on an advisory, its stream and the sequence number, and on a result, which is read back.
pub record Json : Type 0 where
  pub unmarshal_advisory : Str → Option (Str × ℕ)
  pub unmarshal_result : Str → Option SigningResultEvent
  pub marshal_result : SigningResultEvent → Option Str
  pub unmarshal-marshal_result :
      (e : SigningResultEvent) (t : Str) → marshal_result e ≡ some t → unmarshal_result t ≡ some e

-- nats.Msg
pub record Message : Type 0 where
  pub subject : Str
  pub body : Str
  pub headers : Dict Str

-- Header.Get
abbrev pub header : Str → Message → Str
header k m = elim (lookup k m.headers) [ none ↦ [] | some v ↦ v ]

-- Enqueue: the message that is published, with the idempotency key of the options.
unfoldable pub enqueue : Str → Str → Option Str → Message
enqueue topic message none = record { subject = topic; body = message; headers = [] }
enqueue topic message (some key) = record {
  subject = topic;
  body = message;
  headers = (codes "Nats-Msg-Id", key) ∷ [];
}

-- The error of a handler, which may be ErrPermament, and what is done with the message.
pub data Handled : Type 0 where
  done permanent_error other_error : Handled

pub data Settlement : Type 0 where
  ack nak term : Settlement

unfoldable pub settle : Handled → Settlement
settle done = ack
settle permanent_error = term
settle other_error = nak

-- The handler of Dequeue on a message.
unfoldable pub dequeue {ℓ} : {S : Type ℓ} → (Str → S → S × Handled) → Message → S → S × Settlement
unfolding settle
dequeue handler m s = let (s', handled) = handler m.body s in (s', settle handled)

-- The handler that OnSignResult gives to Dequeue.
unfoldable pub on_sign_result {ℓ} :
    {S : Type ℓ} → Json → (SigningResultEvent → S → S) → Str → S → S × Handled
on_sign_result j callback text s = elim (j.unmarshal_result text) [
  | none ↦ (s, other_error)
  | some e ↦ (callback e s, done)
]

-- SigningResultSubscriptionSubject
unfoldable pub signing_result_subscription_subject : Str → Str
unfolding signing_result_subject
signing_result_subscription_subject client_id = signing_result_subject client_id

-- The fields that the timeout consumer overwrites.
unfoldable pub timed_out : SigningResultEvent → SigningResultEvent
timed_out e = record e {
  result_type = codes "error";
  error_code = codes "ERROR_MAX_DELIVERY_ATTEMPTS";
  is_timeout = true;
  error_reason = codes "Signing failed: maximum delivery attempts exceeded";
}

-- The result for a failed request.
unfoldable pub enqueue_timed_out : Json → Message → List Message
unfolding timed_out enqueue scoped_operation_id
enqueue_timed_out j failed = elim (j.unmarshal_result failed.body) [
  | none ↦ []
  | some e ↦ elim (j.marshal_result (timed_out e)) [
    | none ↦ []
    | some text ↦
        enqueue (signing_result_subject (header (codes "ClientID") failed)) text (
          some (
            codes "mpc.mpc_signing_result."
            ++ scoped_operation_id (header (codes "ClientID") failed) e.tx_id))
        ∷ []
  ]
]

-- The handler of advisories in Run, with GetMsg of the stream; the messages that it enqueues.
unfoldable pub handle_advisory : Json → (Str → ℕ → Option Message) → Str → List Message
unfolding enqueue_timed_out
handle_advisory j get_msg text = elim (j.unmarshal_advisory text) [
  | none ↦ []
  | some (stream, seq) ↦
      if str_eq stream (codes "mpc-signing")
      then elim (get_msg stream seq) [ none ↦ [] | some failed ↦ enqueue_timed_out j failed ]
      else []
]

-- strings.ReplaceAll of a byte
unfoldable pub replace_all : ℕ → Str → Str → Str
replace_all c by [] = []
replace_all c by (d ∷ s) = let rest = replace_all c by s in if d == c then by ++ rest else d ∷ rest

-- unicode.IsLetter of a byte
unfoldable pub is_letter : ℕ → Bool
is_letter c =
    (leb 65 c && leb c 90)
    || (leb 97 c && leb c 122)
    || (c == 170)
    || (c == 181)
    || (c == 186)
    || (leb 192 c && leb c 214)
    || (leb 216 c && leb c 246)
    || (leb 248 c && leb c 255)

unfoldable pub replace_marks : Str → Str
unfolding replace_all
replace_marks name = replace_all b'*' (codes "any") (
    replace_all b'>' (codes "all") (
      replace_all b'-' (codes "_") (
        replace_all b' ' (codes "_")
          (replace_all b':' (codes "_") (replace_all b'.' (codes "_") name)))))

abbrev pub from_letter : Str → Str
from_letter [] = []
from_letter (c ∷ s) = if is_letter c || (c == b'_') then c ∷ s else b'_' ∷ c ∷ s

-- sanitizeConsumerName
unfoldable pub sanitize_consumer_name : Str → Str
unfolding replace_marks
sanitize_consumer_name name = from_letter (replace_marks name)

-- ResultConsumerName
unfoldable pub result_consumer_name : Str → Str → Str
result_consumer_name base client_id =
    if is_empty client_id then base else base ++ (b'.' ∷ client_id)
