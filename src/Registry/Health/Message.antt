-- ===== src/Registry/Health/Message.antt =====
-- The text of a health check in pkg/mpc/registry.go, "<node id>,<true or false>".
use mpcium.Base.{
  ◌≡◌, refl, Bool, true, false, Option, none, some, [], ◌∷◌, ◌++◌, ◌||◌, ◌==◌, if◌then◌else◌, arith,
  Str, codes, str_eq, All, ap, ◌≢◌, ◌∙◌,
}

-- `strings.SplitN(s, ",", 2)`, where a separator is there: the text before the first comma, and all
-- that follows it.
unfoldable pub cut_comma : Str → Option (Str × Str)
cut_comma [] = none
cut_comma (c ∷ s) =
    let rest : Option (Str × Str) = elim (cut_comma s) [
      | none ↦ none
      | some (a, b) ↦ some (c ∷ a, b)
    ] in
    if c == b',' then some ([], s) else rest

-- `strconv.ParseBool`
unfoldable pub parse_bool : Str → Option Bool
parse_bool s =
    if str_eq s (codes "1")
      || str_eq s (codes "t")
      || str_eq s (codes "T")
      || str_eq s (codes "TRUE")
      || str_eq s (codes "true")
      || str_eq s (codes "True")
    then some true
    else if str_eq s (codes "0")
        || str_eq s (codes "f")
        || str_eq s (codes "F")
        || str_eq s (codes "FALSE")
        || str_eq s (codes "false")
        || str_eq s (codes "False")
    then some false
    else none

-- The format "%t".
unfoldable pub print_bool : Bool → Str
print_bool true = codes "true"
print_bool false = codes "false"

-- composeHealthData, for the answer of isECDHReady.
unfoldable pub compose_health_data : Str → Bool → Str
unfolding print_bool
compose_health_data node_id ready = node_id ++ (codes "," ++ print_bool ready)

-- parseHealthDataSplit on the parts that the split gives; `none` is an error.
unfoldable pub read_parts : Option (Str × Str) → Option (Str × Bool)
unfolding parse_bool
read_parts none = none
read_parts (some (peer_id, rest)) = elim (parse_bool rest) [
  | none ↦ none
  | some ready ↦ some (peer_id, ready)
]

-- parseHealthDataSplit
unfoldable pub parse_health_data : Str → Option (Str × Bool)
unfolding cut_comma read_parts
parse_health_data s = read_parts (cut_comma s)

cut_comma-append : (a b : Str) → All (λ c. c ≢ b',') a → cut_comma (a ++ b',' ∷ b) ≡ some (a, b)
unfolding cut_comma
cut_comma-append [] b h = refl
cut_comma-append (c ∷ a) b h = ground (arith, cut_comma-append a b h.1)

read_parts-print_bool :
    (node_id : Str) (ready : Bool)
    → read_parts (some (node_id, print_bool ready)) ≡ some (node_id, ready)
unfolding read_parts print_bool str_eq
read_parts-print_bool node_id true = refl
read_parts-print_bool node_id false = refl

-- A node id without a comma, and the flag, are read back from the health check that carries them.
parse-compose_health_data :
    (node_id : Str) (ready : Bool)
    → All (λ c. c ≢ b',') node_id
    → parse_health_data (compose_health_data node_id ready) ≡ some (node_id, ready)
unfolding parse_health_data compose_health_data
parse-compose_health_data node_id ready h =
    ap read_parts (cut_comma-append node_id (print_bool ready) h)
    ∙ read_parts-print_bool node_id ready
