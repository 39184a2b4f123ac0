-- ===== src/Validation/Converts.antt =====
-- app/services/validation.py: what a given value of a field may be, and what is stored of it, described
-- apart from `coerce`.
use flyrank_capstone_widgetp.Base.{
  ℕ, String, Bool, true, false, not, ◌&&◌, ◌≡◌, refl, List, [], ◌∷◌, arith, any, ltb, str_eq,
  Bool-cases, inl, inr,
}
use flyrank_capstone_widgetp.Text.{strip, is_word, lower, codes, text_length}
use flyrank_capstone_widgetp.Json.{
  Json, null, bool, int, float, str, arr, obj, Python, to_text, to_float, FloatResult, value,
  type_error, value_error, overflow_error,
}
use flyrank_capstone_widgetp.Config.{Config}
use flyrank_capstone_widgetp.Http.{ok}
use flyrank_capstone_widgetp.Schema.{Field}
use flyrank_capstone_widgetp.Validation.{
  converted, is_scalar, limit_of, options_of, read_boolean, coerce, coerce_checkbox, coerce_number,
  coerce_text,
}
use flyrank_capstone_widgetp.Validation.Email.{is_email}
use flyrank_capstone_widgetp.Validation.Email.Shape.{EmailShape, is_email-EmailShape}
use flyrank_capstone_widgetp.Validation.Given.{
  HasText, scalar-HasText, HasText-scalar, Fits, limit-Fits, Fits-limit,
}

-- The words for yes and no.
abbrev pub yes_words : List String
yes_words = "true" ∷ "on" ∷ "yes" ∷ "1" ∷ []

abbrev pub no_words : List String
no_words = "false" ∷ "off" ∷ "no" ∷ "0" ∷ "" ∷ []

module _ (cfg : Config) (p : Python) where
  -- A value in lower case without white space around it.
  abbrev pub said : Json → List ℕ
  said v = lower (codes (strip (to_text p v)))

  -- A text that a text field of any kind stores: it fits, is an address where one is asked for, and
  -- is one of the options where there are some to choose from.
  pub record Suits (field : Field) (v : Json) (text : String) : Type 0 where
    pub spoken : HasText v
    pub fits : Fits cfg field text
    pub address : str_eq field.kind "email" ≡ true → EmailShape (codes text)
    pub option :
        str_eq field.kind "select" ≡ true → any (str_eq text) (options_of field.options) ≡ true

  -- The value is converted to what is stored: in a checkbox a bool or a word for one, in a number
  -- field what `float` makes of it, and in any other field its text without white space around it.
  pub data Converts (field : Field) (v w : Json) : Type 0 where
    box :
        (b : Bool)
        → str_eq field.kind "checkbox" ≡ true
        → v ≡ bool b
        → w ≡ bool b
        → Converts field v w
    yes_word :
        str_eq field.kind "checkbox" ≡ true
        → ((b : Bool) → ¬ (v ≡ bool b))
        → is_word (said v) yes_words ≡ true
        → w ≡ bool true
        → Converts field v w
    no_word :
        str_eq field.kind "checkbox" ≡ true
        → ((b : Bool) → ¬ (v ≡ bool b))
        → is_word (said v) yes_words ≡ false
        → is_word (said v) no_words ≡ true
        → w ≡ bool false
        → Converts field v w
    number :
        (x : String)
        → str_eq field.kind "number" ≡ true
        → str_eq field.kind "checkbox" ≡ false
        → to_float p v ≡ value x
        → w ≡ float x
        → Converts field v w
    words :
        str_eq field.kind "number" ≡ false
        → str_eq field.kind "checkbox" ≡ false
        → Suits field v (strip (to_text p v))
        → w ≡ str (strip (to_text p v))
        → Converts field v w

  read-Converts :
      (field : Field) (v w : Json)
      → str_eq field.kind "checkbox" ≡ true
      → ((b : Bool) → ¬ (v ≡ bool b))
      → read_boolean (said v) ≡ converted w
      → Converts field v w
  unfolding read_boolean
  read-Converts field v w k other h = elim (Bool-cases (is_word (said v) yes_words)) [
    | inl y ↦ yes_word k other y (ground (arith, (rw y at h)))
    | inr y ↦ elim (Bool-cases (is_word (said v) no_words)) [
      | inl n ↦ no_word k other y n (ground (arith, (rw (y, n) at h)))
      | inr n ↦ cc (rw (y, n) at h)
    ]
  ]

  checkbox-Converts :
      (field : Field) (v w : Json)
      → str_eq field.kind "checkbox" ≡ true
      → coerce_checkbox p v ≡ converted w
      → Converts field v w
  unfolding coerce_checkbox
  checkbox-Converts field (bool b) w k h = box b k refl (ground (arith, h))
  checkbox-Converts field null w k h = read-Converts field null w k (λ b e. cc) h
  checkbox-Converts field (int n) w k h = read-Converts field (int n) w k (λ b e. cc) h
  checkbox-Converts field (float x) w k h = read-Converts field (float x) w k (λ b e. cc) h
  checkbox-Converts field (str s) w k h = read-Converts field (str s) w k (λ b e. cc) h
  checkbox-Converts field (arr xs) w k h = read-Converts field (arr xs) w k (λ b e. cc) h
  checkbox-Converts field (obj ms) w k h = read-Converts field (obj ms) w k (λ b e. cc) h

  checkbox-read :
      (v w : Json)
      → ((b : Bool) → ¬ (v ≡ bool b))
      → read_boolean (said v) ≡ converted w
      → coerce_checkbox p v ≡ converted w
  unfolding coerce_checkbox
  checkbox-read (bool b) w other h = absurd (other b refl)
  checkbox-read null w other h = h
  checkbox-read (int n) w other h = h
  checkbox-read (float x) w other h = h
  checkbox-read (str s) w other h = h
  checkbox-read (arr xs) w other h = h
  checkbox-read (obj ms) w other h = h

  number-Converts :
      (field : Field) (v w : Json) (r : FloatResult)
      → str_eq field.kind "number" ≡ true
      → str_eq field.kind "checkbox" ≡ false
      → to_float p v ≡ r
      → coerce_number p v ≡ ok (converted w)
      → Converts field v w
  unfolding coerce_number
  number-Converts field v w (value x) k c e h =
      number x k c e (ground (arith, (rw (e, coerce_number) at h)))
  number-Converts field v w type_error k c e h = cc (rw (e, coerce_number) at h)
  number-Converts field v w value_error k c e h = cc (rw (e, coerce_number) at h)
  number-Converts field v w overflow_error k c e h = cc (rw (e, coerce_number) at h)

  text-Converts :
      (field : Field) (v w : Json)
      → str_eq field.kind "number" ≡ false
      → str_eq field.kind "checkbox" ≡ false
      → coerce_text cfg p field v ≡ converted w
      → Converts field v w
  unfolding coerce_text
  text-Converts field v w k c h =
      let text = strip (to_text p v) in
      elim (Bool-cases (is_scalar v)) [
        | inr s ↦ cc (rw s at h)
        | inl s ↦ elim (Bool-cases (ltb (limit_of cfg field) (text_length text))) [
          | inl l ↦ cc (rw (s, l) at h)
          | inr l ↦ elim (Bool-cases (str_eq field.kind "email" && not (is_email (codes text)))) [
            | inl m ↦ cc (rw (s, l, m) at h)
            | inr m ↦
                elim (Bool-cases (
                  str_eq field.kind "select"
                  && not (any (str_eq text) (options_of field.options)))) [
                    | inl o ↦ cc (rw (s, l, m, o) at h)
                    | inr o ↦
                        words k c
                          (record {
                            spoken = scalar-HasText v s;
                            fits = limit-Fits cfg field text (ground arith);
                            address = λ e. (is_email-EmailShape (codes text)).0 (ground arith);
                            option = λ e. ground arith;
                          })
                          (ground (arith, (rw (s, l, m, o) at h)))
                  ]
          ]
        ]
      ]

  Suits-text :
      (field : Field) (v : Json)
      → Suits field v (strip (to_text p v))
      → coerce_text cfg p field v ≡ converted (str (strip (to_text p v)))
  unfolding coerce_text
  Suits-text field v h =
      let text = strip (to_text p v) in
      let scalar = HasText-scalar v h.spoken in
      let short = Fits-limit cfg field text h.fits in
      let within : ltb (limit_of cfg field) (text_length text) ≡ false = ground (arith, short) in
      let address : (str_eq field.kind "email" && not (is_email (codes text))) ≡ false =
        elim (Bool-cases (str_eq field.kind "email")) [
          | inl e ↦ rw (e, (is_email-EmailShape (codes text)).1 (h.address e)) refl
          | inr e ↦ rw e refl
        ] in
      let option : (str_eq field.kind "select"
            && not (any (str_eq text) (options_of field.options)))
          ≡ false =
        elim (Bool-cases (str_eq field.kind "select")) [
          | inl e ↦ rw (e, h.option e) refl
          | inr e ↦ rw e refl
        ] in
      rw (scalar, within, address, option) refl

  -- A value is coerced to exactly what it converts to.
  pub coerce-Converts :
      (field : Field) (v w : Json) → coerce cfg p field v ≡ ok (converted w) → Converts field v w
  unfolding coerce
  coerce-Converts field v w h = elim (Bool-cases (str_eq field.kind "checkbox")) [
    | inl c ↦ checkbox-Converts field v w c (ground (arith, (rw c at h)))
    | inr c ↦ elim (Bool-cases (str_eq field.kind "number")) [
      | inl n ↦ number-Converts field v w (to_float p v) n c refl (rw (c, n) at h)
      | inr n ↦ text-Converts field v w n c (ground (arith, (rw (c, n) at h)))
    ]
  ]

  pub Converts-coerce :
      (field : Field) (v w : Json) → Converts field v w → coerce cfg p field v ≡ ok (converted w)
  unfolding coerce coerce_checkbox coerce_number read_boolean
  Converts-coerce field v w (box b k e f) = rw (e, f, k) refl
  Converts-coerce field v w (yes_word k other y f) =
      rw (k, f, checkbox-read v (bool true) other (rw y refl)) refl
  Converts-coerce field v w (no_word k other y n f) =
      rw (k, f, checkbox-read v (bool false) other (rw (y, n) refl)) refl
  Converts-coerce field v w (number x k c e f) = rw (c, k, coerce_number, e, f) refl
  Converts-coerce field v w (words k c h f) = rw (c, k, f, Suits-text field v h) refl
