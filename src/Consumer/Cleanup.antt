-- ===== src/Consumer/Cleanup.antt =====
-- What the cleanup of the table of active sessions in pkg/eventconsumer/event_consumer.go removes.
use mpcium.Base.{
  ℕ, ◌-◌, ◌≡◌, refl, ap, ◌∙◌, sym, ltb, if◌then◌else◌, Bool-cases, Option, none, some, [], ◌∷◌, Str,
  str_eq, str_eq_iff, Dict, lookup, IsMap, inl, inr,
}
use mpcium.Consumer.{cleanup_stale_sessions}

-- The entry of a session, where it is not stale.
abbrev pub unless_stale : ℕ → ℕ → Option ℕ → Option ℕ
unless_stale now timeout none = none
unless_stale now timeout (some created) = if ltb timeout (now - created) then none else some created

-- In a table that lists no key twice, the cleanup removes exactly the sessions that are older than
-- the timeout, and leaves the others as they are.
pub lookup-cleanup_stale_sessions :
    (now timeout : ℕ) (key : Str) (active : Dict ℕ)
    → IsMap active
    → lookup key (cleanup_stale_sessions now timeout active)
      ≡ unless_stale now timeout (lookup key active)
unfolding cleanup_stale_sessions lookup
lookup-cleanup_stale_sessions now timeout key [] h = refl
lookup-cleanup_stale_sessions now timeout key ((j, created) ∷ active) h =
    let rest = lookup-cleanup_stale_sessions now timeout key active h.1 in
    elim (Bool-cases (str_eq j key)) [
      | inr other ↦ elim (Bool-cases (ltb timeout (now - created))) [
        | inl stale ↦ rw (other, stale) rest
        | inr fresh ↦ rw (other, fresh, other) rest
      ]
      | inl same ↦ elim (Bool-cases (ltb timeout (now - created))) [
        | inl stale ↦
            let gone : lookup key active ≡ none =
              ap (λ k. lookup k active) (sym ((str_eq_iff j key).0 same)) ∙ h.0 in
            rw (same, stale) (rest ∙ ap (unless_stale now timeout) gone)
        | inr fresh ↦ rw (same, fresh, same) refl
      ]
    ]
