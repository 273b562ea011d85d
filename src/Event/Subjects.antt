-- ===== src/Event/Subjects.antt =====
-- The client and the operation in the subject of a result: pkg/event/result_topics.go.
use mpcium.Base.{
  ◌≡◌, ◌≢◌, refl, sym, ap, ◌∙◌, [], ◌∷◌, ◌++◌, Str, All, length, length-append, cons-injective,
  append_cancel, arith,
}
use mpcium.Text.Split.{before, before-append, before-All}
use mpcium.Event.{scoped_subject}

-- A text without a dot.
abbrev pub IsToken : Str → Type 0
IsToken s = All (λ c. c ≢ b'.') s

one_token :
    (client tail whole : Str) → IsToken client → IsToken whole → whole ≢ client ++ (b'.' ∷ tail)
one_token client tail whole hc hw e =
    let same : whole ≡ client =
      sym (before-All b'.' whole hw) ∙ ap (before b'.') e ∙ before-append b'.' client tail hc in
    absurd (omega (arith, ap length same, ap length e, length-append client (b'.' ∷ tail)))

two_tokens :
    (a b x y : Str) → IsToken a → IsToken b → a ++ (b'.' ∷ x) ≡ b ++ (b'.' ∷ y) → (a ≡ b) × (x ≡ y)
two_tokens a b x y ha hb e =
    let same : a ≡ b =
      sym (before-append b'.' a x ha) ∙ ap (before b'.') e ∙ before-append b'.' b y hb in
    (same, cons-injective b'.' x y (append_cancel a _ _ (e ∙ ap (λ s. s ++ (b'.' ∷ y)) (sym same))))

-- Of client ids and names without a dot, a subject has only one of each, or no client and one name.
scoped_subject-injective :
    (prefix a b x y : Str)
    → IsToken a
    → IsToken b
    → IsToken x
    → IsToken y
    → scoped_subject prefix a x ≡ scoped_subject prefix b y
    → (a ≡ b) × (x ≡ y)
unfolding scoped_subject
scoped_subject-injective prefix [] [] x y ha hb hx hy e =
    (refl, cons-injective b'.' x y (append_cancel prefix _ _ e))
scoped_subject-injective prefix [] (c ∷ b) x y ha hb hx hy e =
    absurd (one_token (c ∷ b) y x hb hx (cons-injective b'.' _ _ (append_cancel prefix _ _ e)))
scoped_subject-injective prefix (c ∷ a) [] x y ha hb hx hy e =
    absurd
      (one_token (c ∷ a) x y ha hy (sym (cons-injective b'.' _ _ (append_cancel prefix _ _ e))))
scoped_subject-injective prefix (c ∷ a) (d ∷ b) x y ha hb hx hy e =
    two_tokens (c ∷ a) (d ∷ b) x y ha hb (cons-injective b'.' _ _ (append_cancel prefix _ _ e))
