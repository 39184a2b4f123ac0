-- ===== src/Validation/Tests.antt =====
-- app/services/validation.py: the theorems at payloads that meet their hypotheses.
use flyrank_capstone_widgetp.Base.{
  String, true, ◌≡◌, refl, ◌↔◌, List, [], ◌∷◌, none, some, insert, lookup,
}
use flyrank_capstone_widgetp.Json.{
  Json, ℤ, pos, int, str, obj, Members, end, member, entries, Python,
}
use flyrank_capstone_widgetp.Config.{defaults}
use flyrank_capstone_widgetp.Http.{
  ok, http, crash, HttpError, field_errors, overflow, required, unknown_field,
}
use flyrank_capstone_widgetp.Text.{codes, strip, is_space}
use flyrank_capstone_widgetp.Samples.{small_python, name_field, number_field, given_data}
use flyrank_capstone_widgetp.Validation.Email.{is_email}
use flyrank_capstone_widgetp.Validation.Email.Shape.{is_email-EmailShape, EmailShape}
use flyrank_capstone_widgetp.Validation.{
  validate_submission, check_declared, check_field, coerce, coerce_text, coerce_number,
  declared_fields,
}
use flyrank_capstone_widgetp.Validation.Loop.{Cleans}
use flyrank_capstone_widgetp.Validation.Accepts.{AllDeclared, validate_submission-Cleans}
use flyrank_capstone_widgetp.Validation.Refusals.{validate_submission-overflow}

is_email-EmailShape_example : (is_email (codes "a@b.co") ≡ true) ↔ EmailShape (codes "a@b.co")
is_email-EmailShape_example = is_email-EmailShape (codes "a@b.co")

abbrev cleaned_name : List (String × Json)
cleaned_name = ("name", str "Ada") ∷ []

name_passes :
    validate_submission defaults small_python (name_field ∷ []) (some (obj given_data))
    ≡ ok cleaned_name
unfolding validate_submission check_declared check_field coerce coerce_text strip is_space insert
    lookup
name_passes = refl

validate_submission-Cleans_example :
    (validate_submission defaults small_python (name_field ∷ []) (some (obj given_data))
      ≡ ok cleaned_name)
    ↔ (AllDeclared (name_field ∷ []) (entries given_data)
        × Cleans defaults small_python
            (entries given_data)
            (declared_fields (name_field ∷ []))
            cleaned_name)
validate_submission-Cleans_example =
    validate_submission-Cleans defaults small_python (name_field ∷ []) given_data cleaned_name

abbrev stranger : Members
stranger = member "nick" (str "x") end

abbrev refusal : HttpError
refusal = record {
  status = 400;
  detail = field_errors (("nick", unknown_field) ∷ ("name", required) ∷ []);
  retry_after = none;
}

stranger_refused :
    validate_submission defaults small_python (name_field ∷ []) (some (obj stranger)) ≡ http refusal
unfolding validate_submission check_declared check_field insert lookup
stranger_refused = refl

-- A Python whose floats hold no int.
abbrev narrow_python : Python
narrow_python = record small_python { float_of_int = λ _. none }

abbrev huge : Members
huge = member "age" (int (pos 7)) end

huge_fails :
    validate_submission defaults narrow_python (number_field ∷ []) (some (obj huge))
    ≡ crash overflow
unfolding validate_submission check_declared check_field coerce coerce_number insert lookup
huge_fails = refl

validate_submission-overflow_example :
    (overflow ≡ overflow)
    × ((ms : Members) × (name : String) × (n : ℤ) × (some (obj huge) ≡ some (obj ms))
        × (lookup name (entries ms) ≡ some (int n))
        × (narrow_python.float_of_int n ≡ none))
validate_submission-overflow_example =
    validate_submission-overflow defaults narrow_python (number_field ∷ []) (some (obj huge))
      overflow huge_fails
