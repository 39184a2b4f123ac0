-- ===== src/Validation.antt =====
-- app/services/validation.py: a visitor's payload against the fields that the widget declares.
pub mod Email
pub mod Outcomes
pub mod Given
pub mod Converts
pub mod Loop
pub mod Accepts
pub mod Refusals
mod Tests
use flyrank_capstone_widgetp.Base.{
  ℕ, zero, suc, min, String, Bool, true, false, not, ◌&&◌, ◌||◌, Option, none, some, List, [], ◌∷◌,
  ◌++◌, map, any, ltb, ◌==◌, str_eq, lookup, insert, if◌then◌else◌,
}
use flyrank_capstone_widgetp.Text.{strip, is_blank, is_word, lower, codes, text_length}
use flyrank_capstone_widgetp.Json.{
  Json, null, bool, int, float, str, arr, obj, Members, entries, Python, to_text, to_float, value,
  type_error, value_error, overflow_error,
}
use flyrank_capstone_widgetp.Config.{Config}
use flyrank_capstone_widgetp.Http
use flyrank_capstone_widgetp.Http.{
  Outcome, ok, http, crash, raise, ◌>>=◌, overflow, message, field_errors, FieldError,
  unknown_field, required, not_boolean, not_number, not_text, not_email, too_long, not_option,
}
use flyrank_capstone_widgetp.Schema.{Field}
use Email.{is_email}

abbrev pub truthy_words : List String
truthy_words = "true" ∷ "on" ∷ "yes" ∷ "1" ∷ []

abbrev pub falsy_words : List String
falsy_words = "false" ∷ "off" ∷ "no" ∷ "0" ∷ "" ∷ []

-- What becomes of one value: `coerce` returns an error message or the converted value.
pub data Coerced : Type 0 where
  problem : FieldError → Coerced
  converted : Json → Coerced

-- `field.get("options") or []`
abbrev pub options_of : Option (List String) → List String
options_of none = []
options_of (some options) = options

-- `isinstance(value, (str, int, float))`, which a bool passes too
abbrev pub is_scalar : Json → Bool
is_scalar null = false
is_scalar (arr xs) = false
is_scalar (obj ms) = false
is_scalar _ = true

-- `value is None or (isinstance(value, str) and not value.strip())`
abbrev pub is_missing : Option Json → Bool
is_missing none = true
is_missing (some null) = true
is_missing (some (str s)) = is_blank s
is_missing (some _) = false

-- `{field["name"]: field for field in fields}`: a name that comes again replaces the field.
abbrev pub declare_from : List (String × Field) → List Field → List (String × Field)
declare_from declared [] = declared
declare_from declared (field ∷ fields) = declare_from (insert field.name field declared) fields

abbrev pub declared_fields : List Field → List (String × Field)
declared_fields = declare_from []

-- The first loop: names that the widget does not declare.
abbrev pub unknown_names : List (String × Field) → List (String × Json) → List (String × FieldError)
unknown_names declared [] = []
unknown_names declared ((name, v) ∷ given) =
    let rest = unknown_names declared given in
    elim (lookup name declared) [ none ↦ (name, unknown_field) ∷ rest | some _ ↦ rest ]

pub record Checked : Type 0 where
  pub errors : List (String × FieldError)
  pub cleaned : List (String × Json)

-- One round of the second loop: `continue` with nothing, an error, or a value to keep.
pub data Verdict : Type 0 where
  skip : Verdict
  refuse : FieldError → Verdict
  store : Json → Verdict

abbrev pub missing_verdict : Field → Verdict
missing_verdict field = if field.required then refuse required else skip

abbrev pub verdict_of : Coerced → Verdict
verdict_of (problem e) = refuse e
verdict_of (converted v) = store v

abbrev pub keep : String → Verdict → Checked → Checked
keep name skip c = c
keep name (refuse e) c = record c { errors = (name, e) ∷ c.errors }
keep name (store v) c = record c { cleaned = (name, v) ∷ c.cleaned }

abbrev pub conclude :
    List (String × FieldError) → List (String × Json) → Outcome (List (String × Json))
conclude [] cleaned = ok cleaned
conclude (e ∷ errors) cleaned = raise 400 (field_errors (e ∷ errors))

module _ (cfg : Config) where
  -- `field.get("max_length") or config.MAX_FIELD_LENGTH`
  abbrev pub asked_limit : Option ℕ → ℕ
  asked_limit none = cfg.max_field_length
  asked_limit (some zero) = cfg.max_field_length
  asked_limit (some (suc n)) = suc n

  abbrev pub limit_of : Field → ℕ
  limit_of field = min (asked_limit field.max_length) cfg.max_field_length

unfoldable pub read_boolean : List ℕ → Coerced
read_boolean text =
    if is_word text truthy_words
    then converted (bool true)
    else if is_word text falsy_words
    then converted (bool false)
    else problem not_boolean

module _ (p : Python) where
  unfoldable pub coerce_checkbox : Json → Coerced
  unfolding read_boolean
  coerce_checkbox (bool b) = converted (bool b)
  coerce_checkbox v = read_boolean (lower (codes (strip (to_text p v))))

  -- An OverflowError is not among the exceptions that are caught.
  unfoldable pub coerce_number : Json → Outcome Coerced
  coerce_number v = elim (to_float p v) [
    | value x ↦ ok (converted (float x))
    | type_error ↦ ok (problem not_number)
    | value_error ↦ ok (problem not_number)
    | overflow_error ↦ crash overflow
  ]

module _ (cfg : Config) (p : Python) where
  unfoldable pub coerce_text : Field → Json → Coerced
  coerce_text field v =
      let text = strip (to_text p v) in
      if not (is_scalar v)
      then problem not_text
      else if ltb (limit_of cfg field) (text_length text)
      then problem (too_long (limit_of cfg field))
      else if str_eq field.kind "email" && not (is_email (codes text))
      then problem not_email
      else if str_eq field.kind "select" && not (any (str_eq text) (options_of field.options))
      then problem (not_option (options_of field.options))
      else converted (str text)

  -- `coerce`
  unfoldable pub coerce : Field → Json → Outcome Coerced
  unfolding coerce_checkbox coerce_number coerce_text
  coerce field v =
      if str_eq field.kind "checkbox"
      then ok (coerce_checkbox p v)
      else if str_eq field.kind "number"
      then coerce_number p v
      else ok (coerce_text field v)

  unfoldable pub check_field : Field → Option Json → Outcome Verdict
  check_field field none = ok (missing_verdict field)
  check_field field (some v) =
      if is_missing (some v)
      then ok (missing_verdict field)
      else (coerce field v >>= λ c. ok (verdict_of c))

  -- The second loop, over the declared fields in order.
  unfoldable pub check_declared : List (String × Json) → List (String × Field) → Outcome Checked
  check_declared given [] = ok (record { errors = []; cleaned = [] })
  check_declared given ((name, field) ∷ declared) = do
    verdict ← check_field field (lookup name given)
    checked ← check_declared given declared
    ok (keep name verdict checked)

  -- `validate_submission`: the cleaned values, or a 400 that lists every error.
  unfoldable pub validate_submission : List Field → Option Json → Outcome (List (String × Json))
  unfolding check_declared
  validate_submission fields (some (obj ms)) =
      let declared = declared_fields fields in
      check_declared (entries ms) declared >>= λ c.
      conclude (unknown_names declared (entries ms) ++ c.errors) c.cleaned
  validate_submission fields _ = raise 400 (message "data: must be an object")
