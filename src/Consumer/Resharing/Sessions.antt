-- ===== src/Consumer/Resharing/Sessions.antt =====
-- When the handler of resharing requests of pkg/eventconsumer/event_consumer.go starts sessions and
-- publishes results.
use mpcium.Base.{
  ◌≡◌, ◌≢◌, refl, true, false, Bool-cases, Outcome-cases, Option, none, some, List, [], ◌++◌, Str,
  codes, Outcome, ok, err, ◌⊎◌, inl, inr,
}
use mpcium.Event.{is_empty, get_error_code_from_error}
use mpcium.Node.Sessions.{SessionType, ReshareSession, Error}
use mpcium.Consumer.{Request, Effect, unless_cases}
use mpcium.Consumer.Keygen.Checks.{any, is_init}
use mpcium.Consumer.Resharing.{
  Calls, failure, session_type_from_key_type, enqueue_reshare_result, handle_reshare_session_error,
  run_sessions, create, after_creating, reshare_by_type, handle_reshare_event,
}

error-inits :
    (k : Calls) (req : Request) (context e : Str)
    → any is_init (handle_reshare_session_error k req context e) ≡ false
unfolding handle_reshare_session_error enqueue_reshare_result
error-inits k req context e =
    elim (Outcome-cases
      (k.marshal (failure (get_error_code_from_error e) (context ++ (codes ": " ++ e))))) [
        | inr (m, h) ↦ rw (handle_reshare_session_error, h) refl
        | inl (p, h) ↦ elim (Bool-cases (is_empty k.session_id)) [
          | inl s ↦ rw (handle_reshare_session_error, h, s) refl
          | inr s ↦ rw (handle_reshare_session_error, h, s) refl
        ]
      ]

-- Without a session id an error is not published.
error_unnamed :
    (k : Calls) (req : Request) (context e : Str)
    → is_empty k.session_id ≡ true
    → handle_reshare_session_error k req context e ≡ []
unfolding handle_reshare_session_error
error_unnamed k req context e s =
    elim (Outcome-cases
      (k.marshal (failure (get_error_code_from_error e) (context ++ (codes ": " ++ e))))) [
        | inr (m, h) ↦ rw (handle_reshare_session_error, h) refl
        | inl (p, h) ↦ rw (handle_reshare_session_error, h, s) refl
      ]

-- A request without a session id has no effect at all: no session is started and no result published.
pub handle_reshare_event_unnamed :
    (k : Calls) (req : Request) → is_empty k.session_id ≡ true → handle_reshare_event k req ≡ []
unfolding handle_reshare_event
handle_reshare_event_unnamed k req s =
    unless_cases (λ r. r ≡ []) k.unmarshal_error _ _ (λ e h. error_unnamed k req _ e s)
      (λ h. rw s (error_unnamed k req _ _ s))

-- What a run has found before it starts a session: the request was read, named, verified and
-- authorized, its key type is known, and the node made both sessions, of which one may be nil.
pub record Started (k : Calls) : Type 0 where
  pub unmarshalled : k.unmarshal_error ≡ none
  pub named : is_empty k.session_id ≡ false
  pub verified : k.verify_error ≡ none
  pub authorized : k.authorize_error ≡ none
  pub session_type : SessionType
  pub type_known : session_type_from_key_type k.key_type ≡ ok session_type
  pub old : Option ReshareSession
  pub new : Option ReshareSession
  pub old_made : create k session_type false ≡ ok old
  pub new_made : create k session_type true ≡ ok new
  pub takes_part : (old ≢ none) ⊎ (new ≢ none)

some_not_none {ℓ} : {A : Type ℓ} (a : A) → some a ≢ none
some_not_none a e = cc

takes_part-run_sessions :
    (k : Calls) (req : Request) (t : SessionType) (old new : Option ReshareSession)
    → any is_init (run_sessions k req t old new) ≡ true
    → (old ≢ none) ⊎ (new ≢ none)
unfolding run_sessions
takes_part-run_sessions k req t none none h = cc
takes_part-run_sessions k req t none (some new) h = inr (some_not_none new)
takes_part-run_sessions k req t (some old) new h = inl (some_not_none old)

after_creating-inits :
    (k : Calls) (req : Request) (t : SessionType) (a b : Outcome Error (Option ReshareSession))
    → any is_init (after_creating k req t a b) ≡ true
    → (old : Option ReshareSession) × (new : Option ReshareSession) × (a ≡ ok old)
      × (b ≡ ok new)
      × ((old ≢ none) ⊎ (new ≢ none))
unfolding after_creating
after_creating-inits k req t (err e) b h = absurd (cc (error-inits k req _ _, h))
after_creating-inits k req t (ok old) (err e) h = absurd (cc (error-inits k req _ _, h))
after_creating-inits k req t (ok old) (ok new) h =
    (old, new, refl, refl, takes_part-run_sessions k req t old new h)

reshare_by_type-inits :
    (k : Calls) (req : Request) (type : Outcome Str SessionType)
    → any is_init (reshare_by_type k req type) ≡ true
    → (t : SessionType) × (old : Option ReshareSession) × (new : Option ReshareSession) × (type
        ≡ ok t)
      × (create k t false ≡ ok old)
      × (create k t true ≡ ok new)
      × ((old ≢ none) ⊎ (new ≢ none))
unfolding reshare_by_type
reshare_by_type-inits k req (err e) h = absurd (cc (error-inits k req _ _, h))
reshare_by_type-inits k req (ok t) h =
    let (old, new, a, b, part) =
      after_creating-inits k req t (create k t false) (create k t true) h in
    (t, old, new, refl, a, b, part)

-- A resharing session is started only for a request that was read, has a session id, was verified and
-- authorized and has a known key type, and for which the node could make the sessions of both
-- committees and takes part in at least one.
pub handle_reshare_event-Started :
    (k : Calls) (req : Request) → any is_init (handle_reshare_event k req) ≡ true → Started k
unfolding handle_reshare_event
handle_reshare_event-Started k req =
    let P : List Effect → Type 0 = λ r. any is_init r ≡ true → Started k in
    unless_cases P k.unmarshal_error _ _ (λ e _ h. absurd (cc (error-inits k req _ e, h)))
      (λ u. elim (Bool-cases (is_empty k.session_id)) [
        | inl s ↦ rw s (λ h. absurd (cc (error-inits k req _ _, h)))
        | inr s ↦ rw s (
            unless_cases P k.verify_error _ _ (λ e _ h. absurd (cc (error-inits k req _ e, h)))
              (λ v.
                unless_cases P k.authorize_error _ _
                  (λ e _ h. absurd (cc (error-inits k req _ e, h)))
                  (λ a h.
                    let (t, old, new, known, x, y, part) =
                      reshare_by_type-inits k req (session_type_from_key_type k.key_type) h in
                    record {
                      unmarshalled = u;
                      named = s;
                      verified = v;
                      authorized = a;
                      session_type = t;
                      type_known = known;
                      old = old;
                      new = new;
                      old_made = x;
                      new_made = y;
                      takes_part = part;
                    })))
      ])
