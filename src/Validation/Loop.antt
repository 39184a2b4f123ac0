-- ===== src/Validation/Loop.antt =====
-- app/services/validation.py: the loop over the declared fields, against a description of it.
use flyrank_capstone_widgetp.Base.{
  String, true, false, ◌≡◌, refl, arith, inl, inr, Option, none, some, List, [], ◌∷◌, Bool-cases,
  lookup,
}
use flyrank_capstone_widgetp.Json.{Json, int, ℤ, Python}
use flyrank_capstone_widgetp.Config.{Config}
use flyrank_capstone_widgetp.Http.{Outcome, ok, http, crash, overflow, ◌>>=◌}
use flyrank_capstone_widgetp.Schema.{Field}
use flyrank_capstone_widgetp.Validation.{
  Coerced, problem, converted, Checked, Verdict, skip, refuse, store, coerce, check_field,
  check_declared, is_missing, keep, missing_verdict, verdict_of,
}
use flyrank_capstone_widgetp.Validation.Given.{
  NotGiven, is_missing-NotGiven, NotGiven-is_missing, NotGiven-present,
}
use flyrank_capstone_widgetp.Validation.Converts.{Converts, coerce-Converts, Converts-coerce}
use flyrank_capstone_widgetp.Validation.Outcomes.{Ends, coerce-Ends}

-- The values that a payload leaves, field by field in the order of the declaration: a value that is
-- there is converted, and an optional one may be missing.
pub data Cleans (cfg : Config) (p : Python) (given : List (String × Json))
    : List (String × Field) → List (String × Json) → Type 0 where
  done : Cleans cfg p given [] []
  missing :
      {declared : List (String × Field)} {cleaned : List (String × Json)} (name : String)
      (field : Field)
      → NotGiven (lookup name given)
      → field.required ≡ false
      → Cleans cfg p given declared cleaned
      → Cleans cfg p given ((name, field) ∷ declared) cleaned
  present :
      {declared : List (String × Field)} {cleaned : List (String × Json)} (name : String)
      (field : Field) (v w : Json)
      → lookup name given ≡ some v
      → ¬ NotGiven (some v)
      → Converts cfg p field v w
      → Cleans cfg p given declared cleaned
      → Cleans cfg p given ((name, field) ∷ declared) ((name, w) ∷ cleaned)

module _ (cfg : Config) (p : Python) (given : List (String × Json)) where
  -- What one round says of the field it is about.
  abbrev pub Says : String → Field → Outcome Verdict → Type 0
  Says name field (ok skip) = (is_missing (lookup name given) ≡ true) × (field.required ≡ false)
  Says name field (ok (refuse e)) = Unit {0}
  Says name field (ok (store w)) =
      (v : Json) × (lookup name given ≡ some v)
      × (is_missing (some v) ≡ false)
      × (coerce cfg p field v ≡ ok (converted w))
  Says name field (http e) = ⊥
  Says name field (crash e) =
      (e ≡ overflow) × ((n : ℤ) × (lookup name given ≡ some (int n)) × (p.float_of_int n ≡ none))

  missing-Says :
      (name : String) (field : Field)
      → is_missing (lookup name given) ≡ true
      → Says name field (ok (missing_verdict field))
  missing-Says name field m = elim (Bool-cases field.required) [
    | inl r ↦ rw (r, Says) tt
    | inr r ↦ rw (r, Says) (m, r)
  ]

  coerced-Says :
      (name : String) (field : Field) (v : Json) (r : Outcome Coerced)
      → lookup name given ≡ some v
      → is_missing (some v) ≡ false
      → coerce cfg p field v ≡ r
      → Ends cfg p field v r
      → Says name field (r >>= λ c. ok (verdict_of c))
  coerced-Says name field v (ok (problem e)) l m c h = tt
  coerced-Says name field v (ok (converted w)) l m c h = (v, l, m, c)
  coerced-Says name field v (http e) l m c h = h
  coerced-Says name field v (crash e) l m c h = (h.0, (h.2.0, rw (← h.2.1) l, h.2.2))

  check_field-Says :
      (name : String) (field : Field) (o : Option Json)
      → lookup name given ≡ o
      → Says name field (check_field cfg p field o)
  unfolding check_field
  check_field-Says name field none l = missing-Says name field (rw l)
  check_field-Says name field (some v) l = elim (Bool-cases (is_missing (some v))) [
    | inl m ↦ rw (m, Says) (missing-Says name field (rw l m))
    | inr m ↦ rw (m, Says) (coerced-Says name field v _ l m refl (coerce-Ends cfg p field v))
  ]

  -- What the loop says of the fields that it has gone through.
  abbrev pub LoopSays : List (String × Field) → Outcome Checked → Type 0
  LoopSays declared (ok c) = c.errors ≡ [] → Cleans cfg p given declared c.cleaned
  LoopSays declared (http e) = ⊥
  LoopSays declared (crash e) =
      (e ≡ overflow)
      × ((name : String) × (n : ℤ) × (lookup name given ≡ some (int n)) × (p.float_of_int n ≡ none))

  loop_round :
      (name : String) (field : Field) (declared : List (String × Field)) (r : Outcome Verdict)
      (rest : Outcome Checked)
      → Says name field r
      → LoopSays declared rest
      → LoopSays
          ((name, field) ∷ declared)
          (r >>= λ verdict. rest >>= λ c. ok (keep name verdict c))
  loop_round name field declared (ok skip) (ok c) s h =
      λ e. missing name field (is_missing-NotGiven _ s.0) s.1 (h e)
  loop_round name field declared (ok (refuse x)) (ok c) s h = λ e. cc
  loop_round name field declared (ok (store w)) (ok c) s h = λ e.
      present name field s.0 w s.1 (λ m. ground (arith, NotGiven-is_missing (some s.0) m, s.2))
        (coerce-Converts cfg p field s.0 w s.3) (h e)
  loop_round name field declared (ok verdict) (http e) s h = h
  loop_round name field declared (ok verdict) (crash e) s h = h
  loop_round name field declared (http e) rest s h = s
  loop_round name field declared (crash e) rest s h = (s.0, (name, s.1.0, s.1.1, s.1.2))

  pub check_declared-LoopSays :
      (declared : List (String × Field)) → LoopSays declared (check_declared cfg p given declared)
  unfolding check_declared
  check_declared-LoopSays [] = λ e. done
  check_declared-LoopSays ((name, field) ∷ declared) =
      loop_round name field declared _ _ (check_field-Says name field _ refl)
        (check_declared-LoopSays declared)

  check_field_missing :
      (field : Field) (o : Option Json)
      → is_missing o ≡ true
      → field.required ≡ false
      → check_field cfg p field o ≡ ok skip
  unfolding check_field
  check_field_missing field none m r = rw r
  check_field_missing field (some v) m r = rw (m, r)

  check_field_present :
      (field : Field) (v w : Json)
      → is_missing (some v) ≡ false
      → coerce cfg p field v ≡ ok (converted w)
      → check_field cfg p field (some v) ≡ ok (store w)
  unfolding check_field
  check_field_present field v w m c = rw (m, c)

  pub check_declared-Cleans :
      {declared : List (String × Field)} {cleaned : List (String × Json)}
      → Cleans cfg p given declared cleaned
      → check_declared cfg p given declared ≡ ok (record { errors = []; cleaned = cleaned })
  unfolding check_declared
  check_declared-Cleans done = refl
  check_declared-Cleans (missing name field m r rest) =
      rw (check_field_missing field _ (NotGiven-is_missing _ m) r, check_declared-Cleans rest)
  check_declared-Cleans (present name field v w l m c rest) = rw (
    l,
    check_field_present field v w (NotGiven-present _ m) (Converts-coerce cfg p field v w c),
    check_declared-Cleans rest,
  )
