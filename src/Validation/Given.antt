-- ===== src/Validation/Given.antt =====
-- app/services/validation.py: what it is for a value to be missing, to have a text, and to fit a field,
-- described apart from the code's tests.
use flyrank_capstone_widgetp.Base.{
  ℕ, zero, suc, min, ◌≤◌, String, Bool, true, false, ◌≡◌, refl, Option, none, some, arith,
  Bool-cases, inl, inr,
}
use flyrank_capstone_widgetp.Text.{is_blank, text_length}
use flyrank_capstone_widgetp.Json.{Json, null, bool, int, float, str, arr, obj, ℤ}
use flyrank_capstone_widgetp.Config.{Config}
use flyrank_capstone_widgetp.Schema.{Field}
use flyrank_capstone_widgetp.Validation.{is_missing, is_scalar, asked_limit, limit_of}

-- Nothing was given: no such key, a null, or a blank text.
pub data NotGiven (o : Option Json) : Type 0 where
  absent : o ≡ none → NotGiven o
  given_null : o ≡ some null → NotGiven o
  given_blank : (s : String) → o ≡ some (str s) → is_blank s ≡ true → NotGiven o

pub is_missing-NotGiven : (o : Option Json) → is_missing o ≡ true → NotGiven o
is_missing-NotGiven none h = absent refl
is_missing-NotGiven (some null) h = given_null refl
is_missing-NotGiven (some (str s)) h = given_blank s refl h
is_missing-NotGiven (some (bool b)) h = cc
is_missing-NotGiven (some (int n)) h = cc
is_missing-NotGiven (some (float x)) h = cc
is_missing-NotGiven (some (arr xs)) h = cc
is_missing-NotGiven (some (obj ms)) h = cc

pub NotGiven-is_missing : (o : Option Json) → NotGiven o → is_missing o ≡ true
NotGiven-is_missing o (absent e) = rw e refl
NotGiven-is_missing o (given_null e) = rw e refl
NotGiven-is_missing o (given_blank s e b) = rw e b

pub NotGiven-present : (o : Option Json) → ¬ NotGiven o → is_missing o ≡ false
NotGiven-present o h = elim (Bool-cases (is_missing o)) [
  | inl m ↦ absurd (h (is_missing-NotGiven o m))
  | inr m ↦ m
]

-- A value that has a text: no null, list or object.
pub data HasText (v : Json) : Type 0 where
  of_bool : (b : Bool) → v ≡ bool b → HasText v
  of_int : (n : ℤ) → v ≡ int n → HasText v
  of_float : (x : String) → v ≡ float x → HasText v
  of_str : (s : String) → v ≡ str s → HasText v

pub scalar-HasText : (v : Json) → is_scalar v ≡ true → HasText v
scalar-HasText (bool b) h = of_bool b refl
scalar-HasText (int n) h = of_int n refl
scalar-HasText (float x) h = of_float x refl
scalar-HasText (str s) h = of_str s refl
scalar-HasText null h = cc
scalar-HasText (arr xs) h = cc
scalar-HasText (obj ms) h = cc

pub HasText-scalar : (v : Json) → HasText v → is_scalar v ≡ true
HasText-scalar v (of_bool b e) = rw e refl
HasText-scalar v (of_int n e) = rw e refl
HasText-scalar v (of_float x e) = rw e refl
HasText-scalar v (of_str s e) = rw e refl

-- A text is as long as the field and the configuration allow; a length of zero is no limit.
pub record Fits (cfg : Config) (field : Field) (text : String) : Type 0 where
  pub overall : text_length text ≤ cfg.max_field_length
  pub own : (n : ℕ) → field.max_length ≡ some (suc n) → text_length text ≤ suc n

asked_own :
    (cfg : Config) (o : Option ℕ) (l : ℕ)
    → l ≤ min (asked_limit cfg o) cfg.max_field_length
    → (n : ℕ) → o ≡ some (suc n)
    → l ≤ suc n
asked_own cfg o l h n e = omega (arith, (rw e at h))

asked_all :
    (cfg : Config) (o : Option ℕ) (l : ℕ)
    → l ≤ cfg.max_field_length
    → ((n : ℕ) → o ≡ some (suc n) → l ≤ suc n)
    → l ≤ min (asked_limit cfg o) cfg.max_field_length
asked_all cfg none l h own = omega arith
asked_all cfg (some zero) l h own = omega arith
asked_all cfg (some (suc n)) l h own = let mine = own n refl in omega arith

pub limit-Fits :
    (cfg : Config) (field : Field) (text : String)
    → text_length text ≤ limit_of cfg field
    → Fits cfg field text
limit-Fits cfg field text h = record {
  overall = omega arith;
  own = asked_own cfg field.max_length (text_length text) h;
}

pub Fits-limit :
    (cfg : Config) (field : Field) (text : String)
    → Fits cfg field text
    → text_length text ≤ limit_of cfg field
Fits-limit cfg field text f = asked_all cfg field.max_length (text_length text) f.overall f.own
