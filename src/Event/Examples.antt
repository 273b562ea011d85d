-- ===== src/Event/Examples.antt =====
-- Subjects and codes at concrete texts.
use mpcium.Base.{◌≡◌, refl, codes}
use mpcium.Event.{
  get_error_code_from_error, code_marshal_failure, first_case, contains_any, has_any, has_text,
  starts_with, to_lower,
}

reported_as_marshal : get_error_code_from_error (codes "failed to Unmarshal") ≡ code_marshal_failure
unfolding get_error_code_from_error first_case contains_any has_any has_text starts_with to_lower
reported_as_marshal = refl
