-- ===== src/Event/Codes.antt =====
-- Which error codes GetErrorCodeFromError of pkg/event/types.go gives.
use mpcium.Base.{
  ◌≡◌, ◌≢◌, refl, Bool, true, false, if◌then◌else◌, List, [], ◌∷◌, ◌++◌, Str, str_eq, str_eq_iff,
  codes, Bool-cases, inl, inr, arith,
}
use mpcium.Event.{
  starts_with, has_text, to_lower, has_any, contains_any, Case, first_case, cases_from_marshal,
  cases_to_exists, cases_from_storage, code_unmarshal_failure, get_error_code_from_error,
}

has_text-starts_with : (s p : Str) → starts_with p s ≡ true → has_text s p ≡ true
unfolding has_text
has_text-starts_with [] p h = h
has_text-starts_with (c ∷ s) p h = rw h refl

starts_with-append : (q p s : Str) → starts_with (q ++ p) s ≡ true → has_text s p ≡ true
unfolding starts_with has_text
starts_with-append [] p s h = has_text-starts_with s p h
starts_with-append (a ∷ q) p [] h = cc
starts_with-append (a ∷ q) p (c ∷ s) h = ground (arith, starts_with-append q p s)

-- A text that contains a longer pattern contains the end of the pattern.
has_text-append : (q p s : Str) → has_text s (q ++ p) ≡ true → has_text s p ≡ true
unfolding has_text
has_text-append q p [] h = starts_with-append q p [] h
has_text-append q p (c ∷ s) h = elim (Bool-cases (starts_with (q ++ p) (c ∷ s))) [
  | inl e ↦ starts_with-append q p (c ∷ s) e
  | inr e ↦ ground (arith, has_text-append q p s)
]

-- None of the cases has the code.
abbrev lacks : Str → List Case → Bool
lacks code [] = true
lacks code ((patterns, c) ∷ cases) =
    let rest = lacks code cases in if str_eq c code then false else rest

differs : (c code : Str) → str_eq c code ≡ false → c ≢ code
differs c code h e = ground (arith, (str_eq_iff c code).1 e)

first_case-lacks :
    (s code : Str) (cases rest : List Case)
    → lacks code cases ≡ true
    → first_case s rest ≢ code
    → first_case s (cases ++ rest) ≢ code
unfolding first_case
first_case-lacks s code [] rest h k = k
first_case-lacks s code ((ps, c) ∷ cases) rest h k = elim (Bool-cases (str_eq c code)) [
  | inl e ↦ absurd (ground arith)
  | inr e ↦ λ m. elim (Bool-cases (contains_any s ps)) [
    | inl y ↦ differs c code e (rw y at m)
    | inr n ↦ first_case-lacks s code cases rest (rw e at h) k (rw n at m)
  ]
]

contains_any-unmarshal :
    (s : Str)
    → contains_any s (codes "marshal" ∷ []) ≡ false
    → contains_any s (codes "unmarshal" ∷ []) ≡ false
unfolding contains_any has_any to_lower
contains_any-unmarshal s h = elim (Bool-cases (has_text (to_lower s) (codes "unmarshal"))) [
  | inl e ↦ ground (arith, has_text-append (codes "un") (codes "marshal") (to_lower s) e)
  | inr e ↦ rw e refl
]

marshal_first : (s : Str) → first_case s cases_from_marshal ≢ code_unmarshal_failure
unfolding first_case str_eq
marshal_first s m = elim (Bool-cases (contains_any s (codes "marshal" ∷ []))) [
  | inl y ↦ differs (codes "ERROR_MARSHAL_FAILURE") code_unmarshal_failure refl (rw y at m)
  | inr n ↦
      first_case-lacks s code_unmarshal_failure cases_from_storage [] refl
        (λ u. differs (codes "ERROR_UNKNOWN") code_unmarshal_failure refl u)
        (rw (n, contains_any-unmarshal s n) at m)
]

-- No error is reported with the code for a failure to unmarshal: every text with that pattern has
-- the pattern of an earlier case.
get_error_code_from_error_lem : (s : Str) → get_error_code_from_error s ≢ code_unmarshal_failure
unfolding get_error_code_from_error str_eq
get_error_code_from_error_lem s =
    first_case-lacks s code_unmarshal_failure cases_to_exists cases_from_marshal refl
      (marshal_first s)
