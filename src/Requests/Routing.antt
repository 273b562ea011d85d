-- ===== src/Requests/Routing.antt =====
-- Which channel gets which result, over any history of requests and results.
use mpcium.Base.{
  ℕ, ◌+◌, ◌<◌, ◌≡◌, ◌≢◌, sym, ap, ◌∙◌, Bool, true, false, some, List, [], ◌∷◌, Str, str_eq,
  str_eq_iff, Dict, lookup, insert, erase, lookup-insert, lookup-erase, All, All-mono, Bool-cases,
  Option-cases, inl, inr, ◌⊎◌, arith,
}
use mpcium.Requests.{Channel, Waiting, submit, handle}

inserted :
    (id : Str) (new : Channel) (m : Dict Channel) (k : Str) (c : Channel)
    → lookup k (insert id new m) ≡ some c
    → ((id ≡ k) × (c ≡ new)) ⊎ (lookup k m ≡ some c)
inserted id new m k c h = elim (Bool-cases (str_eq id k)) [
  | inl same ↦ inl ((str_eq_iff id k).0 same, ground (arith, lookup-insert id k new m))
  | inr other ↦ inr (ground (arith, lookup-insert id k new m))
]

erased :
    (id : Str) (m : Dict Channel) (k : Str) (c : Channel)
    → lookup k (erase id m) ≡ some c
    → (id ≢ k) × (lookup k m ≡ some c)
erased id m k c h = (
  λ e. ground (arith, lookup-erase id k m, (str_eq_iff id k).1 e),
  ground (arith, lookup-erase id k m),
)

module _ {ℓ} {E : Type ℓ} (id_of : E → Str) where
  -- The channel was not sent on.
  abbrev pub NotSent : ℕ → List (Channel × E) → Type 0
  NotSent n = All (λ p. p.0.number ≢ n)

  -- No channel was sent on twice.
  abbrev pub SentOnce : List (Channel × E) → Type 0
  SentOnce [] = Unit
  SentOnce (p ∷ ps) = NotSent p.0.number ps × SentOnce ps

  -- Each result was sent on a channel for its id.
  abbrev pub SentRight : List (Channel × E) → Type 0
  SentRight = All (λ p. p.0.id ≡ id_of p.1)

  pub record IsRouted (w : Waiting E) : Type ℓ where
    pub waiting :
        (k : Str) (c : Channel)
        → lookup k w.waits ≡ some c
        → (c.id ≡ k) × (c.number < w.made) × NotSent c.number w.sent
    pub apart :
        (k j : Str) (c d : Channel)
        → lookup k w.waits ≡ some c
        → lookup j w.waits ≡ some d
        → c.number ≡ d.number
        → k ≡ j
    pub below : All (λ p. p.0.number < w.made) w.sent
    pub once : SentOnce w.sent
    pub right : SentRight w.sent

  not_sent_made : (n : ℕ) (ps : List (Channel × E)) → All (λ p. p.0.number < n) ps → NotSent n ps
  not_sent_made n = All-mono (λ p. p.0.number < n) (λ p. p.0.number ≢ n) (λ p h e. omega arith)

  erase-IsRouted :
      (id : Str) (w : Waiting E) → IsRouted w → IsRouted (record w { waits = erase id w.waits })
  erase-IsRouted id w r = record {
    waiting = λ k c h. r.waiting k c (erased id w.waits k c h).1;
    apart =
        λ k j c d h g e. r.apart k j c d (erased id w.waits k c h).1 (erased id w.waits j d g).1 e;
    below = r.below;
    once = r.once;
    right = r.right;
  }

  insert-IsRouted :
      (id : Str) (w : Waiting E)
      → IsRouted w
      → IsRouted (record w {
        waits = insert id (record { number = w.made; id = id }) w.waits;
        made = w.made + 1;
      })
  insert-IsRouted id w r = record {
    waiting = λ k c h. elim (inserted id (record { number = w.made; id = id }) w.waits k c h) [
      | inl (same, new) ↦ (
        ap (λ d. d.id) new ∙ same,
        rw new (omega arith),
        rw new (not_sent_made w.made w.sent r.below),
      )
      | inr old ↦ let (i, n, s) = r.waiting k c old in (i, omega arith, s)
    ];
    apart = λ k j c d h g e.
        elim (inserted id (record { number = w.made; id = id }) w.waits k c h) [
          | inl (same, new) ↦
              elim (inserted id (record { number = w.made; id = id }) w.waits j d g) [
                | inl (same', new') ↦ sym same ∙ same'
                | inr old' ↦
                    absurd (omega (arith, ap (λ t. t.number) new, e, (r.waiting j d old').1))
              ]
          | inr old ↦ elim (inserted id (record { number = w.made; id = id }) w.waits j d g) [
            | inl (same', new') ↦
                absurd (omega (arith, ap (λ t. t.number) new', e, (r.waiting k c old).1))
            | inr old' ↦ r.apart k j c d old old' e
          ]
        ];
    below =
        All-mono (λ p. p.0.number < w.made) (λ p. p.0.number < w.made + 1) (λ p h. omega arith)
          w.sent r.below;
    once = r.once;
    right = r.right;
  }

  pub submit-IsRouted :
      (id : Str) (publishes : Bool) (w : Waiting E)
      → IsRouted w
      → IsRouted (submit id publishes w).0
  unfolding submit
  submit-IsRouted id true w r = insert-IsRouted id w r
  submit-IsRouted id false w r = erase-IsRouted id _ (insert-IsRouted id w r)

  sent-IsRouted :
      (e : E) (c : Channel) (w : Waiting E)
      → lookup (id_of e) w.waits ≡ some c
      → IsRouted w
      → IsRouted (record w { waits = erase (id_of e) w.waits; sent = (c, e) ∷ w.sent })
  sent-IsRouted e c w found r =
      let (i, n, s) = r.waiting (id_of e) c found in
      record {
        waiting = λ k d h.
            let (other, old) = erased (id_of e) w.waits k d h in
            let (i', n', s') = r.waiting k d old in
            (i', n', ((λ q. other (r.apart (id_of e) k c d found old q)), s'));
        apart = λ k j d d' h g q.
            r.apart k j d d' (erased (id_of e) w.waits k d h).1 (erased (id_of e) w.waits j d' g).1
              q;
        below = (n, r.below);
        once = (s, r.once);
        right = (i, r.right);
      }

  pub handle-IsRouted : (e : E) (w : Waiting E) → IsRouted w → IsRouted (handle id_of e w)
  unfolding handle
  handle-IsRouted e w r = elim (Option-cases (lookup (id_of e) w.waits)) [
    | inl absent ↦ rw (handle, absent) r
    | inr (c, found) ↦ rw (handle, found) (sent-IsRouted e c w found r)
  ]
