-- ===== src/Wiring.antt =====
-- app/main.py and app/core/errors.py: how the parts are put together. The routes, which FastAPI
-- dispatches, are a parameter.
pub mod Cors
mod Tests
use Prim.Native.String.{◌++◌ as str_append}
use flyrank_capstone_widgetp.Base.{
  ℕ, String, Bool, true, false, not, Option, none, some, List, [], ◌∷◌, map, select, str_eq,
  if◌then◌else◌,
}
use flyrank_capstone_widgetp.Json.{pos, Python}
use flyrank_capstone_widgetp.Config.{Config}
use flyrank_capstone_widgetp.Http.{Outcome, ok, http, crash, HttpError, ◌>>◌}
use flyrank_capstone_widgetp.RateLimit.{RateLimiter, new_limiter}
use flyrank_capstone_widgetp.Middleware.{Request, Reply, App, allow_origins, limit_body}

-- `app.state.limiter`
abbrev pub wired_limiter : Config → RateLimiter
wired_limiter cfg =
    new_limiter cfg.rate_limit_per_ip cfg.rate_limit_per_ip_window cfg.rate_limit_per_widget
      cfg.rate_limit_per_widget_window

-- `separator.join(parts)`
abbrev pub join_with : String → List String → String
join_with separator [] = ""
join_with separator (p ∷ []) = p
join_with separator (p ∷ ps) = str_append p (str_append separator (join_with separator ps))

abbrev pub field_or_body : List String → String
field_or_body [] = "body"
field_or_body location = join_with "." location

-- An entry of `exc.errors()`: its `loc`, each part as text, and its `msg`.
abbrev pub Complaint : Type 0
Complaint = List String × String

-- `describe_validation_error`
unfoldable pub describe_validation_error : Complaint → String
describe_validation_error error =
    str_append (field_or_body (select (λ part. not (str_eq part "body")) error.0))
      (str_append ": " error.1)

-- The text of the 400 that `validation_exception_handler` answers.
unfoldable pub validation_message : List Complaint → String
unfolding describe_validation_error
validation_message errors = join_with "; " (map describe_validation_error errors)

abbrev pub retry_header : Python → Option ℕ → List (String × String)
retry_header python none = []
retry_header python (some seconds) = ("Retry-After", python.int_text (pos seconds)) ∷ []

-- `http_exception_handler`, without the body
abbrev pub http_exception_handler : Python → HttpError → Reply
http_exception_handler python e = record {
  status = e.status;
  headers = retry_header python e.retry_after;
}

-- The routes with the handler of refusals around them.
abbrev pub handled : Python → App → App
handled python routes request = elim (routes request) [
  | ok reply ↦ ok reply
  | http e ↦ ok (http_exception_handler python e)
  | crash x ↦ crash x
]

-- `app`, with the middleware that is added last outermost
unfoldable pub application : Config → Python → App → App
unfolding allow_origins limit_body
application cfg python routes = allow_origins (limit_body cfg (handled python routes))

-- `health`, of what `SELECT 1` comes to
abbrev pub health : Outcome (Unit {0}) → Outcome (List (String × String))
health selected = selected >> ok (("status", "ok") ∷ ("database", "ok") ∷ [])
