-- ===== src/Validation/Refusals.antt =====
-- app/services/validation.py: how a validation ends that is not accepted.
use flyrank_capstone_widgetp.Base.{String, ◌≡◌, List, Option, none, some, lookup}
use flyrank_capstone_widgetp.Json.{Json, ℤ, int, obj, Members, entries, Python}
use flyrank_capstone_widgetp.Config.{Config}
use flyrank_capstone_widgetp.Http.{HttpError, Exception, http, crash, overflow}
use flyrank_capstone_widgetp.Schema.{Field}
use flyrank_capstone_widgetp.Validation.{validate_submission}
use flyrank_capstone_widgetp.Validation.Accepts.{validate_submission_refusals}

-- A validation that refuses does so with the status 400.
pub validate_submission-400 :
    (cfg : Config) (p : Python) (fields : List Field) (values : Option Json) (e : HttpError)
    → validate_submission cfg p fields values ≡ http e
    → e.status ≡ 400
validate_submission-400 cfg p fields values = (validate_submission_refusals cfg p fields values).0

-- A validation that ends in an exception does so by an OverflowError, and its payload is an object
-- that gives some name an int that no float can hold.
pub validate_submission-overflow :
    (cfg : Config) (p : Python) (fields : List Field) (values : Option Json) (x : Exception)
    → validate_submission cfg p fields values ≡ crash x
    → (x ≡ overflow)
      × ((ms : Members) × (name : String) × (n : ℤ) × (values ≡ some (obj ms))
          × (lookup name (entries ms) ≡ some (int n))
          × (p.float_of_int n ≡ none))
validate_submission-overflow cfg p fields values =
    (validate_submission_refusals cfg p fields values).1
