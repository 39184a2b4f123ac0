-- ===== src/Posts.antt =====
-- app/api/public.py: `create_submission`, from the bytes of a request to its answer. `json.loads` is a
-- parameter; header names are lower-case.
pub mod Answers
mod Tests
use Prim.Native.Char.{code}
use flyrank_capstone_widgetp.Base.{
  ℕ, String, Bool, true, false, ◌&&◌, Option, none, some, List, [], ◌∷◌, ltb, leb, length, lookup,
  str_eq, ◌==◌, if◌then◌else◌,
}
use flyrank_capstone_widgetp.Text.{strip, text_length}
use flyrank_capstone_widgetp.Json.{Json, str, obj, Members, entries}
use flyrank_capstone_widgetp.Config.{Config}
use flyrank_capstone_widgetp.Http.{
  Outcome, ok, http, crash, raise, Exception, ◌>>=◌, ◌>>◌, message, about, too_large,
}
use flyrank_capstone_widgetp.Submissions.{Env, State, Moment, Context, Receipt, Payload, submit}

-- What `json.loads` does with bytes: a value, a ValueError, or another exception (RecursionError).
pub data Loaded : Type 0 where
  parsed : Json → Loaded
  invalid : Loaded
  raised : Exception → Loaded

abbrev pub Loads : Type 0
Loads = List ℕ → Loaded

pub record Post : Type 0 where
  pub raw : List ℕ
  pub headers : List (String × String)
  pub host : Option String

-- `text.split(",")[0]`
abbrev pub before_comma : String → String
before_comma String.[] = String.[]
before_comma (String.◌∷◌ c s) =
    let rest = before_comma s in if code c == b',' then String.[] else String.◌∷◌ c rest

abbrev pub host_of : Option String → String
host_of none = ""
host_of (some host) = host

abbrev pub forwarded_or : Option String → String → String
forwarded_or none host = host
forwarded_or (some forwarded) host =
    if str_eq forwarded "" then host else strip (before_comma forwarded)

-- `client_ip`
unfoldable pub client_ip : Config → Post → String
unfolding lookup
client_ip cfg post =
    if cfg.trust_proxy_headers
    then forwarded_or (lookup "x-forwarded-for" post.headers) (host_of post.host)
    else host_of post.host

-- `a or b` of two headers
abbrev pub or_header : Option String → Option String → Option String
or_header none b = b
or_header (some a) b = if str_eq a "" then b else some a

abbrev pub context_of : Config → Post → Context
context_of cfg post = record {
  ip = client_ip cfg post;
  user_agent = lookup "user-agent" post.headers;
  referer = or_header (lookup "referer" post.headers) (lookup "origin" post.headers);
  idempotency_key = lookup "idempotency-key" post.headers;
}

-- `SubmissionEnvelope`: the first complaint, about `widget_id` before `data`.
abbrev pub check_widget_id : Option Json → Outcome (Unit {0})
check_widget_id (some (str s)) =
    if leb 1 (text_length s) && leb (text_length s) 64
    then ok tt
    else raise 400 (about "widget_id" "length")
check_widget_id none = raise 400 (about "widget_id" "required")
check_widget_id _ = raise 400 (about "widget_id" "not a string")

abbrev pub check_data : Option Json → Outcome (Unit {0})
check_data (some (obj ms)) = ok tt
check_data none = raise 400 (about "data" "required")
check_data _ = raise 400 (about "data" "not a dictionary")

unfoldable pub check_envelope : Payload → Outcome (Unit {0})
check_envelope payload = do
  check_widget_id (lookup "widget_id" payload)
  check_data (lookup "data" payload)

-- The payload, or why there is none: the size, the JSON, an object, and the envelope.
unfoldable pub read_payload : Config → Loads → Post → Outcome Payload
unfolding check_envelope
read_payload cfg loads post =
    if ltb cfg.max_body_bytes (length post.raw)
    then raise 413 (too_large cfg.max_body_bytes)
    else elim (loads post.raw) [
      | parsed (obj ms) ↦ check_envelope (entries ms) >>= λ u. ok (entries ms)
      | parsed _ ↦ raise 400 (message "body: must be a JSON object")
      | invalid ↦ raise 400 (message "body: not valid JSON")
      | raised x ↦ crash x
    ]

-- `create_submission`
unfoldable pub create_submission :
    Env → Loads → Moment → Post → State → State × Outcome (Receipt × ℕ)
unfolding read_payload
create_submission env loads m post s = elim (read_payload env.cfg loads post) [
  | ok payload ↦ submit env m payload (context_of env.cfg post) s
  | http e ↦ (s, http e)
  | crash x ↦ (s, crash x)
]
