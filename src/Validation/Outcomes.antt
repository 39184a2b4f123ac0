-- ===== src/Validation/Outcomes.antt =====
-- app/services/validation.py: how a validation can end.
use flyrank_capstone_widgetp.Base.{
  ℕ, ◌≤◌, ◌&&◌, String, Bool, true, false, not, ◌≡◌, refl, inl, inr, none, List, arith, Bool-cases,
  Option-cases, any, str_eq, ltb,
}
use flyrank_capstone_widgetp.Text.{strip, codes, text_length, lower, is_word}
use flyrank_capstone_widgetp.Text.Strip.{strip-strip}
use flyrank_capstone_widgetp.Json.{Json, bool, int, float, str, ℤ, Python, to_text}
use flyrank_capstone_widgetp.Config.{Config}
use flyrank_capstone_widgetp.Http.{Outcome, ok, http, crash, overflow}
use flyrank_capstone_widgetp.Schema.{Field}
use flyrank_capstone_widgetp.Validation.{
  Coerced, problem, converted, coerce, coerce_checkbox, coerce_number, coerce_text, limit_of,
  options_of, is_scalar, read_boolean, truthy_words, falsy_words,
}
use flyrank_capstone_widgetp.Validation.Email.{is_email}

-- What a stored value of a field is, by the field's kind.
pub data Conforms (cfg : Config) (field : Field) : Json → Type 0 where
  checkbox : (b : Bool) → str_eq field.kind "checkbox" ≡ true → Conforms cfg field (bool b)
  number : (x : String) → str_eq field.kind "number" ≡ true → Conforms cfg field (float x)
  words :
      (s : String)
      → strip s ≡ s
      → text_length s ≤ limit_of cfg field
      → (str_eq field.kind "email" ≡ true → is_email (codes s) ≡ true)
      → (str_eq field.kind "select" ≡ true → any (str_eq s) (options_of field.options) ≡ true)
      → Conforms cfg field (str s)

module _ (cfg : Config) (p : Python) where
  -- Whatever the value, coercing it gives a message, a value that conforms to the field, or the
  -- OverflowError of an int that no float can hold, in a number field.
  abbrev pub Ends : Field → Json → Outcome Coerced → Type 0
  Ends field v (ok (problem e)) = Unit {0}
  Ends field v (ok (converted w)) = Conforms cfg field w
  Ends field v (http e) = ⊥
  Ends field v (crash e) =
      (e ≡ overflow)
      × (str_eq field.kind "number" ≡ true)
      × ((n : ℤ) × (v ≡ int n) × (p.float_of_int n ≡ none))

  coerce_number-Ends :
      (field : Field) (v : Json)
      → str_eq field.kind "number" ≡ true
      → Ends field v (coerce_number p v)
  unfolding coerce_number
  coerce_number-Ends field (int n) k = elim (Option-cases (p.float_of_int n)) [
    | inl e ↦ rw (e, coerce_number, Ends) (refl, k, (n, refl, e))
    | inr (x, e) ↦ rw (e, coerce_number, Ends) (number x k)
  ]
  coerce_number-Ends field (str s) k = elim (Option-cases (p.float_of_text s)) [
    | inl e ↦ rw (e, coerce_number, Ends) tt
    | inr (x, e) ↦ rw (e, coerce_number, Ends) (number x k)
  ]
  coerce_number-Ends field (bool true) k = number "1.0" k
  coerce_number-Ends field (bool false) k = number "0.0" k
  coerce_number-Ends field (float x) k = number x k
  coerce_number-Ends field _ k = tt

  read_boolean-Ends :
      (field : Field) (v : Json) (text : List ℕ)
      → str_eq field.kind "checkbox" ≡ true
      → Ends field v (ok (read_boolean text))
  unfolding read_boolean
  read_boolean-Ends field v text k = elim (Bool-cases (is_word text truthy_words)) [
    | inl t ↦ rw (t, Ends) (checkbox true k)
    | inr t ↦ elim (Bool-cases (is_word text falsy_words)) [
      | inl f ↦ rw (t, f, Ends) (checkbox false k)
      | inr f ↦ rw (t, f, Ends) tt
    ]
  ]

  coerce_checkbox-Ends :
      (field : Field) (v : Json)
      → str_eq field.kind "checkbox" ≡ true
      → Ends field v (ok (coerce_checkbox p v))
  unfolding coerce_checkbox
  coerce_checkbox-Ends field (bool b) k = checkbox b k
  coerce_checkbox-Ends field v k = read_boolean-Ends field v (lower (codes (strip (to_text p v)))) k

  coerce_text-Ends : (field : Field) (v : Json) → Ends field v (ok (coerce_text cfg p field v))
  unfolding coerce_text
  coerce_text-Ends field v =
      let text = strip (to_text p v) in
      elim (Bool-cases (is_scalar v)) [
        | inr s ↦ rw (s, Ends) tt
        | inl s ↦ elim (Bool-cases (ltb (limit_of cfg field) (text_length text))) [
          | inl l ↦ rw (s, l, Ends) tt
          | inr l ↦ elim (Bool-cases (str_eq field.kind "email" && not (is_email (codes text)))) [
            | inl m ↦ rw (s, l, m, Ends) tt
            | inr m ↦
                elim (Bool-cases (
                  str_eq field.kind "select"
                  && not (any (str_eq text) (options_of field.options)))) [
                    | inl o ↦ rw (s, l, m, o, Ends) tt
                    | inr o ↦
                        rw (s, l, m, o, Ends)
                          (words text (strip-strip (to_text p v)) (ground arith) (λ e. ground arith)
                            (λ e. ground arith))
                  ]
          ]
        ]
      ]

  pub coerce-Ends : (field : Field) (v : Json) → Ends field v (coerce cfg p field v)
  unfolding coerce
  coerce-Ends field v = elim (Bool-cases (str_eq field.kind "checkbox")) [
    | inl c ↦ rw c (coerce_checkbox-Ends field v c)
    | inr c ↦ elim (Bool-cases (str_eq field.kind "number")) [
      | inl n ↦ rw (c, n) (coerce_number-Ends field v n)
      | inr n ↦ rw (c, n) (coerce_text-Ends field v)
    ]
  ]
