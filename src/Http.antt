-- ===== src/Http.antt =====
-- How an operation ends: with a value, with an HTTPException that becomes a response, or with an
-- exception that nothing catches, which the server answers by a 500. The details of the exceptions
-- are kept as data in place of the formatted text.
use flyrank_capstone_widgetp.Base.{ℕ, String, ◌≡◌, refl, ◌⊎◌, inl, inr, Option, none, List}

-- The messages that app/services/validation.py gives for one field.
pub data FieldError : Type 0 where
  unknown_field required not_boolean not_number not_text not_email : FieldError
  too_long : ℕ → FieldError
  not_option : List String → FieldError

pub data Detail : Type 0 where
  message : String → Detail
  about : String → String → Detail
  field_errors : List (String × FieldError) → Detail
  too_many : String → ℕ → Detail
  too_large : ℕ → Detail

-- `status_code`, `detail` and the one header that an exception carries, Retry-After.
pub record HttpError : Type 0 where
  pub status : ℕ
  pub detail : Detail
  pub retry_after : Option ℕ

pub data Exception : Type 0 where
  overflow not_null_violation foreign_key_violation unique_violation type_error value_error
        database_error data_error :
      Exception

pub data Outcome {ℓ} (A : Type ℓ) : Type ℓ where
  ok : A → Outcome A
  http : HttpError → Outcome A
  crash : Exception → Outcome A

-- What follows runs on a value only.
infixl 5 ◌>>=◌
abbrev pub ◌>>=◌ {i j} : {B : Type j} {A : Type i} → Outcome A → (A → Outcome B) → Outcome B
crash x >>= next = crash x
http refusal >>= next = http refusal
ok value >>= next = next value

infixl 5 ◌>>◌
abbrev pub ◌>>◌ {j} : {B : Type j} → Outcome (Unit {0}) → Outcome B → Outcome B
first >> rest = first >>= λ u. rest

-- `raise HTTPException(status_code=…, detail=…)`
abbrev pub raise {ℓ} : {A : Type ℓ} → ℕ → Detail → Outcome A
raise status detail = http (record { status = status; detail = detail; retry_after = none })

-- Where a chain ends: in its first part, or in what follows.
module _ {i j} {A : Type i} {B : Type j} where
  pub >>=-eq-crash :
      (first : Outcome A) (next : A → Outcome B) {x : Exception}
      → (first >>= next) ≡ crash x
      → (first ≡ crash x) ⊎ ((value : A) × (first ≡ ok value) × (next value ≡ crash x))
  >>=-eq-crash (crash x) next end = inl (cc)
  >>=-eq-crash (http refusal) next end = cc
  >>=-eq-crash (ok value) next end = inr (value, refl, end)

  pub >>=-eq-http :
      (first : Outcome A) (next : A → Outcome B) {refusal : HttpError}
      → (first >>= next) ≡ http refusal
      → (first ≡ http refusal) ⊎ ((value : A) × (first ≡ ok value) × (next value ≡ http refusal))
  >>=-eq-http (crash x) next end = cc
  >>=-eq-http (http refusal) next end = inl (cc)
  >>=-eq-http (ok value) next end = inr (value, refl, end)

  pub >>=-eq-ok :
      (first : Outcome A) (next : A → Outcome B) {answer : B}
      → (first >>= next) ≡ ok answer
      → (value : A) × (first ≡ ok value) × (next value ≡ ok answer)
  >>=-eq-ok (crash x) next end = cc
  >>=-eq-ok (http refusal) next end = cc
  >>=-eq-ok (ok value) next end = (value, refl, end)
