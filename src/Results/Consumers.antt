-- ===== src/Results/Consumers.antt =====
-- The consumers of two clients.
use mpcium.Base.{
  ℕ, ◌≡◌, refl, sym, ap, ◌∙◌, false, ◌==◌, [], ◌∷◌, ◌++◌, append_assoc, Str, Bool-cases, inl, inr,
}
use mpcium.Event.{is_empty}
use mpcium.Results.{
  replace_all, replace_marks, sanitize_consumer_name, from_letter, result_consumer_name,
}

replace_all-append :
    (c : ℕ) (by s t : Str) → replace_all c by (s ++ t) ≡ replace_all c by s ++ replace_all c by t
unfolding replace_all
replace_all-append c by [] t = refl
replace_all-append c by (d ∷ s) t = elim (Bool-cases (d == c)) [
  | inl e ↦
      rw (e, replace_all-append c by s t)
        (sym (append_assoc by (replace_all c by s) (replace_all c by t)))
  | inr e ↦ rw (e, replace_all-append c by s t) refl
]

replace_marks-append : (s t : Str) → replace_marks (s ++ t) ≡ replace_marks s ++ replace_marks t
unfolding replace_marks
replace_marks-append s t = simp (replace_all-append)

replace_marks-hyphen : (a b : Str) → replace_marks (a ++ b'-' ∷ b) ≡ replace_marks (a ++ b'_' ∷ b)
unfolding replace_marks
replace_marks-hyphen a b =
    replace_marks-append a (b'-' ∷ b) ∙ sym (replace_marks-append a (b'_' ∷ b))

nonempty : (a : Str) (c : ℕ) (b : Str) → is_empty (a ++ c ∷ b) ≡ false
nonempty [] c b = refl
nonempty (d ∷ a) c b = refl

-- Two client ids that differ only in a hyphen where the other has an underscore get one name of the
-- durable consumer for their results.
pub sanitize_consumer_name_shared :
    (base a b : Str)
    → sanitize_consumer_name (result_consumer_name base (a ++ b'-' ∷ b))
      ≡ sanitize_consumer_name (result_consumer_name base (a ++ b'_' ∷ b))
unfolding sanitize_consumer_name result_consumer_name replace_marks
sanitize_consumer_name_shared base a b =
    rw (nonempty a b'-' b, nonempty a b'_' b)
      (ap from_letter (
        replace_marks-append base (b'.' ∷ (a ++ b'-' ∷ b))
        ∙ ap (λ t. replace_marks base ++ b'_' ∷ t) (replace_marks-hyphen a b)
        ∙ sym (replace_marks-append base (b'.' ∷ (a ++ b'_' ∷ b)))))
