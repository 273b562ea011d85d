-- ===== src/Event.antt =====
-- The subjects of results and the error codes, pkg/event/result_topics.go and pkg/event/types.go.
pub mod Subjects
pub mod Codes
mod Examples
use mpcium.Base.{
  Bool, true, false, List, [], ◌∷◌, ◌++◌, ◌||◌, ◌&&◌, leb, ◌==◌, ◌+◌, ℕ, if◌then◌else◌, Str, codes,
  String,
}

abbrev pub is_empty : Str → Bool
is_empty [] = true
is_empty (c ∷ s) = false

-- scopedSubject
unfoldable pub scoped_subject : Str → Str → Str → Str
scoped_subject prefix client_id tail =
    if is_empty client_id
    then prefix ++ (b'.' ∷ tail)
    else prefix ++ (b'.' ∷ (client_id ++ (b'.' ∷ tail)))

-- KeygenResultSubject
unfoldable pub keygen_result_subject : Str → Str → Str
unfolding scoped_subject
keygen_result_subject client_id wallet_id =
    scoped_subject (codes "mpc.mpc_keygen_result") client_id wallet_id

-- SigningResultSubject
unfoldable pub signing_result_subject : Str → Str
unfolding scoped_subject
signing_result_subject client_id =
    scoped_subject (codes "mpc.mpc_signing_result") client_id (codes "complete")

-- ReshareResultSubject
unfoldable pub reshare_result_subject : Str → Str → Str
unfolding scoped_subject
reshare_result_subject client_id session_id =
    scoped_subject (codes "mpc.mpc_reshare_result") client_id session_id

-- ScopedOperationID
unfoldable pub scoped_operation_id : Str → Str → Str
scoped_operation_id client_id operation_id =
    if is_empty client_id then operation_id else client_id ++ (b':' ∷ operation_id)

-- `strings.HasPrefix`, with the prefix first
unfoldable pub starts_with : Str → Str → Bool
starts_with [] s = true
starts_with (a ∷ p) [] = false
starts_with (a ∷ p) (c ∷ s) = (a == c) && starts_with p s

-- `strings.Contains`
unfoldable pub has_text : Str → Str → Bool
unfolding starts_with
has_text [] p = starts_with p []
has_text (c ∷ s) p = starts_with p (c ∷ s) || has_text s p

-- `strings.ToLower`, for an ASCII text
unfoldable pub to_lower : Str → Str
to_lower [] = []
to_lower (c ∷ s) = (if leb b'A' c && leb c b'Z' then c + 32 else c) ∷ to_lower s

-- The loop of `contains`, over a text in lower case.
unfoldable pub has_any : Str → List Str → Bool
unfolding has_text to_lower
has_any s [] = false
has_any s (p ∷ ps) = has_text s (to_lower p) || has_any s ps

-- `contains`
unfoldable pub contains_any : Str → List Str → Bool
unfolding has_any to_lower
contains_any s ps = has_any (to_lower s) ps

-- The cases of the switch of GetErrorCodeFromError: the patterns of each, and its code.
abbrev pub Case : Type 0
Case = List Str × Str

abbrev pub code_marshal_failure : Str
code_marshal_failure = codes "ERROR_MARSHAL_FAILURE"

abbrev pub code_unmarshal_failure : Str
code_unmarshal_failure = codes "ERROR_UNMARSHAL_FAILURE"

abbrev pub case_one : String → String → Case
case_one p code = (codes p ∷ [], codes code)

abbrev pub case_two : String → String → String → Case
case_two p q code = (codes p ∷ codes q ∷ [], codes code)

abbrev pub cases_to_exists : List Case
cases_to_exists =
    case_one "missing required authorizer signature" "ERROR_MISSING_AUTHORIZER_SIGNATURE"
    ∷ case_two "authorizer" "verification failed" "ERROR_INVALID_AUTHORIZER_SIGNATURE"
    ∷ case_one "validation" "ERROR_MSG_VALIDATION"
    ∷ case_two "timeout" "timed out" "ERROR_NETWORK_TIMEOUT"
    ∷ case_two "connection" "connect" "ERROR_NETWORK_CONNECTION"
    ∷ case_one "send" "ERROR_PEER_UNAVAILABLE"
    ∷ case_two "not enough" "insufficient" "ERROR_INSUFFICIENT_PARTICIPANTS"
    ∷ case_one "incompatible" "ERROR_INCOMPATIBLE_PEER_IDS"
    ∷ case_two "not found" "no such key" "ERROR_KEY_NOT_FOUND"
    ∷ case_one "exists" "ERROR_KEY_ALREADY_EXISTS"
    ∷ []

abbrev pub cases_from_storage : List Case
cases_from_storage =
    case_two "storage" "kvstore" "ERROR_STORAGE_READ"
    ∷ case_two "save" "put" "ERROR_STORAGE_WRITE"
    ∷ case_one "session" "ERROR_SESSION_CREATION"
    ∷ case_two "verify" "verification" "ERROR_MESSAGE_VERIFICATION"
    ∷ case_two "delivery" "deliver" "ERROR_MESSAGE_DELIVERY"
    ∷ case_two "context" "cancelled" "ERROR_CONTEXT_CANCELLED"
    ∷ case_one "invalid signature from initiator" "ERROR_INVALID_INITIATOR_SIGNATURE"
    ∷ case_one "duplicate" "ERROR_SESSION_DUPLICATE"
    ∷ []

abbrev pub cases_from_marshal : List Case
cases_from_marshal =
    case_one "marshal" "ERROR_MARSHAL_FAILURE"
    ∷ case_one "unmarshal" "ERROR_UNMARSHAL_FAILURE"
    ∷ cases_from_storage

unfoldable pub first_case : Str → List Case → Str
unfolding contains_any
first_case s [] = codes "ERROR_UNKNOWN"
first_case s ((patterns, code) ∷ cases) =
    let rest = first_case s cases in if contains_any s patterns then code else rest

-- GetErrorCodeFromError, of an error with the given text.
unfoldable pub get_error_code_from_error : Str → Str
unfolding first_case
get_error_code_from_error s = first_case s (cases_to_exists ++ cases_from_marshal)
