-- ===== src/Session/Topics.antt =====
-- The topics of the sessions: the topicComposer of each constructor of pkg/mpc/*_session.go, the
-- barrier topics, and extractSenderIDFromDirectTopic of pkg/mpc/session.go.
use mpcium.Base.{
  ℕ, ◌≡◌, refl, sym, ap, ◌∙◌, ◌≢◌, List, [], ◌∷◌, ◌++◌, Str, codes, All, append_cancel,
  cons-injective,
}
use mpcium.Text.Split.{split_n, split_n-append, before, before-append}

-- SessionTypeECDSA and SessionTypeEDDSA, which tell by which of the two constructors a session is made.
pub data Curve : Type 0 where
  ecdsa eddsa : Curve

-- The kind of a session, with the transaction that a signing session signs.
pub data Protocol : Type 0 where
  keygen resharing : Protocol
  signing : Str → Protocol

-- A format "prefix%s:%s:%s".
abbrev pub direct_of : Str → Str → Str → Str → Str
direct_of prefix from to last = prefix ++ (from ++ (codes ":" ++ (to ++ (codes ":" ++ last))))

-- ComposeBroadcastTopic of the sessions on a wallet.
unfoldable pub compose_broadcast_topic : Curve → Protocol → Str → Str
compose_broadcast_topic ecdsa keygen wallet_id = codes "keygen:broadcast:ecdsa:" ++ wallet_id
compose_broadcast_topic eddsa keygen wallet_id = codes "keygen:broadcast:eddsa:" ++ wallet_id
compose_broadcast_topic ecdsa resharing wallet_id = codes "resharing:broadcast:ecdsa:" ++ wallet_id
compose_broadcast_topic eddsa resharing wallet_id = codes "reshare:broadcast:eddsa:" ++ wallet_id
compose_broadcast_topic ecdsa (signing tx_id) wallet_id =
    codes "sign:ecdsa:broadcast:" ++ (wallet_id ++ (codes ":" ++ tx_id))
compose_broadcast_topic eddsa (signing tx_id) wallet_id =
    codes "sign:eddsa:broadcast:" ++ (wallet_id ++ (codes ":" ++ tx_id))

-- ComposeDirectTopic of the sessions on a wallet.
unfoldable pub compose_direct_topic : Curve → Protocol → Str → Str → Str → Str
compose_direct_topic ecdsa keygen wallet_id from to =
    direct_of (codes "keygen:direct:ecdsa:") from to wallet_id
compose_direct_topic eddsa keygen wallet_id from to =
    direct_of (codes "keygen:direct:eddsa:") from to wallet_id
compose_direct_topic ecdsa resharing wallet_id from to =
    direct_of (codes "resharing:direct:ecdsa:") from to wallet_id
compose_direct_topic eddsa resharing wallet_id from to =
    direct_of (codes "reshare:direct:eddsa:") from to wallet_id
compose_direct_topic ecdsa (signing tx_id) wallet_id from to =
    direct_of (codes "sign:ecdsa:direct:") from to tx_id
compose_direct_topic eddsa (signing tx_id) wallet_id from to =
    direct_of (codes "sign:eddsa:direct:") from to tx_id

-- The barrier topic of a node in WaitForPeersReady.
unfoldable pub barrier_topic : Curve → Protocol → Str → Str → Str
unfolding compose_broadcast_topic
barrier_topic t p wallet_id node_id =
    codes "barrier:" ++ (compose_broadcast_topic t p wallet_id ++ (codes ":" ++ node_id))

-- The fourth part, or the empty text.
abbrev pub fourth : List Str → Str
fourth (a ∷ b ∷ c ∷ d ∷ ps) = d
fourth _ = []

-- extractSenderIDFromDirectTopic
unfoldable pub extract_sender_id_from_direct_topic : Str → Str
unfolding split_n
extract_sender_id_from_direct_topic topic = fourth (split_n b':' 4 topic)

-- The sender that a direct topic names is read back from it, in the sessions of every kind on both
-- curves, when its node id has no colon.
pub extract_sender_id_from_direct_topic-compose_direct_topic :
    (t : Curve) (p : Protocol) (wallet_id from to : Str)
    → All (λ c. c ≢ b':') from
    → extract_sender_id_from_direct_topic (compose_direct_topic t p wallet_id from to) ≡ from
unfolding extract_sender_id_from_direct_topic compose_direct_topic split_n
extract_sender_id_from_direct_topic-compose_direct_topic ecdsa keygen wallet_id from to h =
    rw (split_n-append b':' 0 from (to ++ (codes ":" ++ wallet_id)) h) refl
extract_sender_id_from_direct_topic-compose_direct_topic eddsa keygen wallet_id from to h =
    rw (split_n-append b':' 0 from (to ++ (codes ":" ++ wallet_id)) h) refl
extract_sender_id_from_direct_topic-compose_direct_topic ecdsa resharing wallet_id from to h =
    rw (split_n-append b':' 0 from (to ++ (codes ":" ++ wallet_id)) h) refl
extract_sender_id_from_direct_topic-compose_direct_topic eddsa resharing wallet_id from to h =
    rw (split_n-append b':' 0 from (to ++ (codes ":" ++ wallet_id)) h) refl
extract_sender_id_from_direct_topic-compose_direct_topic ecdsa (signing tx_id) wallet_id from to h =
    rw (split_n-append b':' 0 from (to ++ (codes ":" ++ tx_id)) h) refl
extract_sender_id_from_direct_topic-compose_direct_topic eddsa (signing tx_id) wallet_id from to h =
    rw (split_n-append b':' 0 from (to ++ (codes ":" ++ tx_id)) h) refl

cut_injective :
    (sep : ℕ) (a x b y : Str)
    → All (λ c. c ≢ sep) a
    → All (λ c. c ≢ sep) b
    → a ++ sep ∷ x ≡ b ++ sep ∷ y
    → (a ≡ b) × (x ≡ y)
cut_injective sep a x b y h k e =
    let same : a ≡ b =
      sym (before-append sep a x h) ∙ (ap (before sep) e ∙ before-append sep b y k) in
    let tails : a ++ sep ∷ x ≡ a ++ sep ∷ y = e ∙ ap (λ c. c ++ sep ∷ y) (sym same) in
    (same, cons-injective sep x y (append_cancel a _ _ tails))

direct_of-injective :
    (prefix f t l g u m : Str)
    → All (λ c. c ≢ b':') f
    → All (λ c. c ≢ b':') t
    → All (λ c. c ≢ b':') g
    → All (λ c. c ≢ b':') u
    → direct_of prefix f t l ≡ direct_of prefix g u m
    → (f ≡ g) × (t ≡ u)
direct_of-injective prefix f t l g u m hf ht hg hu e =
    let (from, rest) = cut_injective b':' f _ g _ hf hg (append_cancel prefix _ _ e) in
    let (to, last) = cut_injective b':' t _ u _ ht hu rest in (from, to)

-- Two direct topics of sessions of one kind on one wallet are the same only for the same sender and the
-- same receiver, when no node id has a colon.
pub compose_direct_topic-injective :
    (t : Curve) (p : Protocol) (wallet_id from to from' to' : Str)
    → All (λ c. c ≢ b':') from
    → All (λ c. c ≢ b':') to
    → All (λ c. c ≢ b':') from'
    → All (λ c. c ≢ b':') to'
    → compose_direct_topic t p wallet_id from to ≡ compose_direct_topic t p wallet_id from' to'
    → (from ≡ from') × (to ≡ to')
unfolding compose_direct_topic
compose_direct_topic-injective ecdsa keygen w f t g u hf ht hg hu e =
    direct_of-injective (codes "keygen:direct:ecdsa:") f t w g u w hf ht hg hu e
compose_direct_topic-injective eddsa keygen w f t g u hf ht hg hu e =
    direct_of-injective (codes "keygen:direct:eddsa:") f t w g u w hf ht hg hu e
compose_direct_topic-injective ecdsa resharing w f t g u hf ht hg hu e =
    direct_of-injective (codes "resharing:direct:ecdsa:") f t w g u w hf ht hg hu e
compose_direct_topic-injective eddsa resharing w f t g u hf ht hg hu e =
    direct_of-injective (codes "reshare:direct:eddsa:") f t w g u w hf ht hg hu e
compose_direct_topic-injective ecdsa (signing x) w f t g u hf ht hg hu e =
    direct_of-injective (codes "sign:ecdsa:direct:") f t x g u x hf ht hg hu e
compose_direct_topic-injective eddsa (signing x) w f t g u hf ht hg hu e =
    direct_of-injective (codes "sign:eddsa:direct:") f t x g u x hf ht hg hu e
