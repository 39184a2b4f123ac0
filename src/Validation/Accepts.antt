-- ===== src/Validation/Accepts.antt =====
-- app/services/validation.py: what a validation accepts, against a description of it.
use flyrank_capstone_widgetp.Base.{
  String, ◌≡◌, refl, ◌⊎◌, inl, inr, ◌↔◌, Option, none, some, List, [], ◌∷◌, ◌++◌, arith, lookup,
  insert, lookup-insert, any, str_eq, All, Bool, true, false, ◌||◌, Option-cases,
}
use flyrank_capstone_widgetp.Json.{Json, obj, int, ℤ, Members, entries, Python}
use flyrank_capstone_widgetp.Config.{Config}
use flyrank_capstone_widgetp.Http.{
  Outcome, ok, http, crash, Exception, overflow, HttpError, ◌>>=◌, FieldError,
}
use flyrank_capstone_widgetp.Schema.{Field}
use flyrank_capstone_widgetp.Validation.{
  converted, Checked, coerce, validate_submission, declare_from, declared_fields, unknown_names,
  conclude,
}
use flyrank_capstone_widgetp.Validation.Outcomes.{coerce-Ends, Conforms}
use flyrank_capstone_widgetp.Validation.Converts.{Converts-coerce}
use flyrank_capstone_widgetp.Validation.Loop.{
  Cleans, done, missing, present, LoopSays, check_declared-LoopSays, check_declared-Cleans,
}

-- A pair of a field's name and the field that a list of declarations holds.
abbrev pub Declares : List (String × Field) → String → Field → Type 0
Declares [] name field = ⊥
Declares ((n, f) ∷ declared) name field = ((n ≡ name) × (f ≡ field)) ⊎ Declares declared name field

-- Each stored value conforms to a declared field of its name.
abbrev pub AllConform : Config → List (String × Field) → List (String × Json) → Type 0
AllConform cfg declared [] = Unit {0}
AllConform cfg declared ((name, w) ∷ cleaned) =
    ((field : Field) × Declares declared name field × Conforms cfg field w)
    × AllConform cfg declared cleaned

AllConform-cons :
    (cfg : Config) (name : String) (field : Field) (declared : List (String × Field))
    (cleaned : List (String × Json))
    → AllConform cfg declared cleaned
    → AllConform cfg ((name, field) ∷ declared) cleaned
AllConform-cons cfg name field declared [] h = tt
AllConform-cons cfg name field declared ((n, w) ∷ cleaned) h =
    ((h.0.0, inr h.0.1, h.0.2), AllConform-cons cfg name field declared cleaned h.1)

-- Every name of the payload is that of a field of the widget.
abbrev pub AllDeclared : List Field → List (String × Json) → Type 0
AllDeclared fields = All (λ e. any (λ f. str_eq f.name e.0) fields ≡ true)

abbrev is_some : Option Field → Bool
is_some none = false
is_some (some f) = true

declared-lookup :
    (name : String) (declared : List (String × Field)) (fields : List Field)
    → is_some (lookup name (declare_from declared fields))
      ≡ (is_some (lookup name declared) || any (λ f. str_eq f.name name) fields)
declared-lookup name declared [] = ground arith
declared-lookup name declared (f ∷ fields) = ground (
  arith,
  declared-lookup name (insert f.name f declared) fields,
  lookup-insert f.name name f declared,
)

lookup_nothing : (name : String) → is_some (lookup name []) ≡ false
unfolding lookup
lookup_nothing name = refl

-- The first loop complains about nothing exactly when every name is declared.
unknown-AllDeclared :
    (fields : List Field) (given : List (String × Json))
    → (unknown_names (declared_fields fields) given ≡ []) ↔ AllDeclared fields given
unknown-AllDeclared fields [] = (λ h. tt, λ h. refl)
unknown-AllDeclared fields ((name, v) ∷ given) =
    let rest = unknown-AllDeclared fields given in
    let there = declared-lookup name [] fields in
    elim (Option-cases (lookup name (declared_fields fields))) [
      | inl n ↦
          let no : any (λ f. str_eq f.name name) fields ≡ false =
            ground (arith, (rw n at there), lookup_nothing name) in
          (λ h. cc (rw (n, unknown_names) at h), λ h. cc (rw no at h.0))
      | inr (f, e) ↦
          let yes : any (λ f. str_eq f.name name) fields ≡ true =
            ground (arith, (rw e at there), lookup_nothing name) in
          (λ h. (yes, rest.0 (rw (e, unknown_names) at h)), λ h. rw (e, unknown_names) (rest.1 h.1))
    ]

conclude-eq-ok :
    (unknown errors : List (String × FieldError)) (kept cleaned : List (String × Json))
    → conclude (unknown ++ errors) kept ≡ ok cleaned
    → (unknown ≡ []) × (errors ≡ []) × (kept ≡ cleaned)
conclude-eq-ok [] [] kept cleaned h = (refl, refl, cc)
conclude-eq-ok [] (e ∷ errors) kept cleaned h = cc
conclude-eq-ok (e ∷ unknown) errors kept cleaned h = cc

status-conclude :
    (errors : List (String × FieldError)) (kept : List (String × Json)) (e : HttpError)
    → conclude errors kept ≡ http e
    → e.status ≡ 400
status-conclude [] kept e h = cc
status-conclude (x ∷ errors) kept e h = ground arith

conclude-ne-crash :
    (errors : List (String × FieldError)) (kept : List (String × Json)) (x : Exception)
    → ¬ (conclude errors kept ≡ crash x)
conclude-ne-crash [] kept x h = cc
conclude-ne-crash (e ∷ errors) kept x h = cc

module _ (cfg : Config) (p : Python) where
  coerced-Conforms :
      (field : Field) (v w : Json) → coerce cfg p field v ≡ ok (converted w) → Conforms cfg field w
  coerced-Conforms field v w c = rw c at (coerce-Ends cfg p field v)

  Cleans-AllConform :
      {given : List (String × Json)} {declared : List (String × Field)}
      {cleaned : List (String × Json)}
      → Cleans cfg p given declared cleaned
      → AllConform cfg declared cleaned
  Cleans-AllConform done = tt
  Cleans-AllConform (missing {declared} {cleaned} name field m r rest) =
      AllConform-cons cfg name field declared cleaned (Cleans-AllConform rest)
  Cleans-AllConform (present {declared} {cleaned} name field v w l m c rest) = (
    (field, inl (refl, refl), coerced-Conforms field v w (Converts-coerce cfg p field v w c)),
    AllConform-cons cfg name field declared cleaned (Cleans-AllConform rest),
  )

  module _ (fields : List Field) where
    accepted-Cleans :
        (ms : Members) (cleaned : List (String × Json)) (unknown : List (String × FieldError))
        (r : Outcome Checked)
        → LoopSays cfg p (entries ms) (declared_fields fields) r
        → (r >>= λ c. conclude (unknown ++ c.errors) c.cleaned) ≡ ok cleaned
        → (unknown ≡ []) × Cleans cfg p (entries ms) (declared_fields fields) cleaned
    accepted-Cleans ms cleaned unknown (ok c) h e =
        let parts = conclude-eq-ok unknown c.errors c.cleaned cleaned e in
        (parts.0, rw parts.2 at (h parts.1))
    accepted-Cleans ms cleaned unknown (http x) h e = absurd h
    accepted-Cleans ms cleaned unknown (crash x) h e = cc

    refused-LoopSays :
        (ms : Members) (unknown : List (String × FieldError)) (r : Outcome Checked)
        → LoopSays cfg p (entries ms) (declared_fields fields) r
        → ((e : HttpError)
            → (r >>= λ c. conclude (unknown ++ c.errors) c.cleaned) ≡ http e
            → e.status ≡ 400)
          × ((x : Exception)
              → (r >>= λ c. conclude (unknown ++ c.errors) c.cleaned) ≡ crash x
              → (x ≡ overflow)
                × ((name : String) × (n : ℤ) × (lookup name (entries ms) ≡ some (int n))
                    × (p.float_of_int n ≡ none)))
    refused-LoopSays ms unknown (ok c) h = (
      status-conclude (unknown ++ c.errors) c.cleaned,
      λ x e. absurd (conclude-ne-crash (unknown ++ c.errors) c.cleaned x e),
    )
    refused-LoopSays ms unknown (http x) h = absurd h
    refused-LoopSays ms unknown (crash y) h = (λ e h. cc, λ x e. (cc (h.0), h.1))

    -- A payload is accepted, with these cleaned values, exactly when each of its names is that of a
    -- field of the widget and the values are, in the order of the fields, what each field leaves of it:
    -- nothing for an optional field whose value is absent, null or blank, and otherwise the value
    -- converted by the kind of the field: a bool or a word for one in a checkbox, a float in a number
    -- field, and else the stripped text of a value that has one, which fits, is an address in an email
    -- field and an option in a select.
    pub validate_submission-Cleans :
        (ms : Members) (cleaned : List (String × Json))
        → (validate_submission cfg p fields (some (obj ms)) ≡ ok cleaned) ↔ (
            AllDeclared fields (entries ms)
            × Cleans cfg p (entries ms) (declared_fields fields) cleaned)
    unfolding validate_submission
    validate_submission-Cleans ms cleaned =
        let unknown = unknown-AllDeclared fields (entries ms) in
        (
          λ h.
              let found =
                accepted-Cleans ms cleaned _ _
                  (check_declared-LoopSays cfg p (entries ms) (declared_fields fields)) h in
              (unknown.0 found.0, found.1),
          λ h. rw (check_declared-Cleans cfg p (entries ms) h.1, unknown.1 h.0),
        )

    -- Every value that an accepted payload stores conforms to a declared field of its name.
    pub validate_submission-AllConform :
        (ms : Members) (cleaned : List (String × Json))
        → validate_submission cfg p fields (some (obj ms)) ≡ ok cleaned
        → AllConform cfg (declared_fields fields) cleaned
    validate_submission-AllConform ms cleaned h =
        Cleans-AllConform ((validate_submission-Cleans ms cleaned).0 h).1

    -- How a validation ends that is not accepted: by a 400, or by the OverflowError of an int in the
    -- payload that no float can hold.
    pub validate_submission_refusals :
        (values : Option Json)
        → ((e : HttpError) → validate_submission cfg p fields values ≡ http e → e.status ≡ 400)
          × ((x : Exception)
              → validate_submission cfg p fields values ≡ crash x
              → (x ≡ overflow)
                × ((ms : Members) × (name : String) × (n : ℤ) × (values ≡ some (obj ms))
                    × (lookup name (entries ms) ≡ some (int n))
                    × (p.float_of_int n ≡ none)))
    unfolding validate_submission
    validate_submission_refusals none = (λ e h. ground arith, λ x h. cc)
    validate_submission_refusals (some (obj ms)) =
        let ends =
          refused-LoopSays ms (unknown_names (declared_fields fields) (entries ms)) _
            (check_declared-LoopSays cfg p (entries ms) (declared_fields fields)) in
        (
          ends.0,
          λ x h.
              let found = ends.1 x h in
              (found.0, (ms, found.1.0, found.1.1, refl, found.1.2, found.1.3)),
        )
    validate_submission_refusals (some _) = (λ e h. ground arith, λ x h. cc)
