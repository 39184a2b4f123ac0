-- ===== src/Middleware.antt =====
-- app/middleware/cors.py and app/middleware/body_limit.py: what stands before the routes. A request
-- has its path as code points and its headers under lower-case names; the rest of the application is
-- a parameter.
pub mod Admin
mod Tests
use flyrank_capstone_widgetp.Base.{
  ℕ, ◌+◌, ◌*◌, ◌-◌, String, Bool, true, false, not, ◌&&◌, ◌||◌, Option, none, some, List, [], ◌∷◌,
  any, ltb, leb, ◌==◌, str_eq, lookup, insert, if◌then◌else◌,
}
use flyrank_capstone_widgetp.Text.{codes, same_codes}
use flyrank_capstone_widgetp.Config.{Config}
use flyrank_capstone_widgetp.Http.{Outcome, ok, crash, value_error, ◌>>=◌}

pub record Request : Type 0 where
  pub path : List ℕ
  pub method : String
  pub headers : List (String × String)

pub record Reply : Type 0 where
  pub status : ℕ
  pub headers : List (String × String)

abbrev pub App : Type 0
App = Request → Outcome Reply

-- `path.startswith(prefix)`
abbrev pub starts_with : List ℕ → List ℕ → Bool
starts_with path [] = true
starts_with [] (c ∷ prefix) = false
starts_with (d ∷ path) (c ∷ prefix) = d == c && starts_with path prefix

-- The prefixes, each with what `rstrip("/")` leaves of it.
abbrev pub public_prefixes : List (String × String)
public_prefixes =
    ("/widget.js", "/widget.js") ∷ ("/static/", "/static") ∷ ("/public/", "/public") ∷ []

-- `is_public`
abbrev pub is_public : List ℕ → Bool
is_public path =
    any (λ e. same_codes path (codes e.1) || starts_with path (codes e.0)) public_prefixes

-- A header that is there and not empty.
abbrev pub is_given : Option String → Bool
is_given none = false
is_given (some s) = not (str_eq s "")

abbrev pub or_default : Option String → String → String
or_default none default = default
or_default (some s) default = s

abbrev pub preflight_reply : Option String → Reply
preflight_reply requested = record {
  status = 204;
  headers =
      ("Access-Control-Allow-Origin", "*")
      ∷ ("Access-Control-Allow-Methods", "GET, POST, OPTIONS")
      ∷ ("Access-Control-Allow-Headers", or_default requested "Content-Type, Idempotency-Key")
      ∷ ("Access-Control-Max-Age", "600")
      ∷ ("Vary", "Origin")
      ∷ [];
}

abbrev pub with_origin : Bool → Reply → Reply
with_origin false reply = reply
with_origin true reply = record reply {
  headers = insert "Vary" "Origin" (insert "Access-Control-Allow-Origin" "*" reply.headers);
}

-- `PublicCORSMiddleware.dispatch`
unfoldable pub allow_origins : App → App
allow_origins app request =
    if is_public request.path
    then if str_eq request.method "OPTIONS"
        && is_given (lookup "access-control-request-method" request.headers)
      then ok (preflight_reply (lookup "access-control-request-headers" request.headers))
      else (app request >>= λ reply.
          ok (with_origin (is_given (lookup "origin" request.headers)) reply))
    else app request

-- `str.isdigit` of a character that a header can have: the decimal digits and three superscripts.
abbrev pub is_digit : ℕ → Bool
is_digit c = (leb 48 c && leb c 57) || (c == 178 || (c == 179 || c == 185))

abbrev pub all_digits : List ℕ → Bool
all_digits [] = true
all_digits (c ∷ cs) = is_digit c && all_digits cs

-- `int(declared)` on digits, which a superscript fails.
abbrev pub read_int : ℕ → List ℕ → Outcome ℕ
read_int n [] = ok n
read_int n (c ∷ cs) =
    let rest = read_int (n * 10 + (c - 48)) cs in if leb c 57 then rest else crash value_error

module _ (cfg : Config) where
  -- `BodyLimitMiddleware.dispatch`
  unfoldable pub limit_body : App → App
  limit_body app request = elim (lookup "content-length" request.headers) [
    | none ↦ app request
    | some declared ↦
        if is_given (some declared) && all_digits (codes declared)
        then (read_int 0 (codes declared) >>= λ n.
            if ltb cfg.max_body_bytes n
            then ok (record { status = 413; headers = [] })
            else app request)
        else app request
  ]
