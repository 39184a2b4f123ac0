-- ===== src/Submissions.antt =====
-- app/services/submissions.py: everything between a post and a row.
-- The state is the database and the limiter. Other requests may commit while one waits: what they
-- commit before the insert, and before the second look for a replay, is an argument.
pub mod Stages
pub mod Keeps
pub mod Invariant
pub mod Replay
pub mod Total
mod Tests
use flyrank_capstone_widgetp.Base.{
  ℕ, String, Bool, true, false, not, ◌&&◌, ◌||◌, Option, none, some, List, [], ◌∷◌, map, select,
  str_eq, lookup, if◌then◌else◌,
}
use flyrank_capstone_widgetp.Text.{is_blank, least}
use flyrank_capstone_widgetp.Json.{Json, str, Python, to_text, truthy}
use flyrank_capstone_widgetp.Config.{Config}
use flyrank_capstone_widgetp.Http.{
  Outcome, ok, http, crash, raise, ◌>>=◌, ◌>>◌, about, too_many, type_error,
}
use flyrank_capstone_widgetp.Schema.{Widget, Location, Submission}
use flyrank_capstone_widgetp.RateLimit.{RateLimiter, Readings, Scope, check}
use flyrank_capstone_widgetp.Validation.{validate_submission}
use flyrank_capstone_widgetp.Database.{Database, NewSubmission, create, find_by_idempotency_key}
use flyrank_capstone_widgetp.Delivery.{get_active}
use flyrank_capstone_widgetp.Geo.{Address, Client, GeoService, enrich}

-- What the service is built over, and what is not of this program.
pub record Env : Type 0 where
  pub cfg : Config
  pub python : Python
  pub geo : GeoService
  pub address : String → Option Address
  pub client : Client
  pub hz : ℕ

pub record State : Type 0 where
  pub db : Database
  pub limiter : RateLimiter

-- The clocks that one request reads, and what others commit meanwhile.
pub record Moment : Type 0 where
  pub readings : Readings
  pub now : ℕ
  pub before_create : Database → Database
  pub before_refind : Database → Database

pub record Context : Type 0 where
  pub ip : String
  pub user_agent : Option String
  pub referer : Option String
  pub idempotency_key : Option String

pub record Receipt : Type 0 where
  pub id : ℕ
  pub status : String

abbrev pub Payload : Type 0
Payload = List (String × Json)

abbrev pub is_allowed : Config → String × Json → Bool
is_allowed cfg e = str_eq e.0 "widget_id" || (str_eq e.0 "data" || str_eq e.0 cfg.honeypot_field)

abbrev unexpected : List (String × Json) → Outcome (Unit {0})
unexpected [] = ok tt
unexpected (e ∷ es) = raise 400 (about (least e.0 (map (λ x. x.0) es)) "unexpected field")

-- `reject_unknown_keys`
unfoldable pub reject_unknown_keys : Config → Payload → Outcome (Unit {0})
reject_unknown_keys cfg payload = unexpected (select (λ e. not (is_allowed cfg e)) payload)

-- `receipt`
abbrev pub receipt : Submission → Bool → Receipt
receipt row replayed = record { id = row.id; status = if replayed then "replayed" else "received" }

abbrev pub scope_name : Scope → String
scope_name Scope.ip = "ip"
scope_name Scope.widget = "widget"

-- `check_rate_limit`, on the limiter's verdict
abbrev pub check_rate_limit : Option (Scope × ℕ) → Outcome (Unit {0})
check_rate_limit none = ok tt
check_rate_limit (some (scope, wait)) =
    http
      (record { status = 429; detail = too_many (scope_name scope) wait; retry_after = some wait })

-- `payload["widget_id"]`, a text in every payload that the envelope lets through
abbrev pub widget_of : Option Json → Database → Outcome Widget
widget_of (some (str widget_id)) db = get_active widget_id db
widget_of _ db = crash type_error

-- `bool(trap and str(trap).strip())`
abbrev pub is_trapped : Python → Option Json → Bool
is_trapped p none = false
is_trapped p (some trap) = truthy trap && not (is_blank (to_text p trap))

-- `if idempotency_key:`, which an empty key fails
abbrev pub given_key : Option String → Option String
given_key none = none
given_key (some key) = if str_eq key "" then none else some key

abbrev pub find_replay : String → Option String → Database → Option Submission
find_replay widget_id none db = none
find_replay widget_id (some key) db = find_by_idempotency_key widget_id key db

pub record Accepted : Type 0 where
  pub widget : Widget
  pub values : List (String × Json)

module _ (env : Env) where
  -- The checks that read only the payload and the widget.
  unfoldable pub accept : Payload → Database → Outcome Accepted
  accept payload db = do
    widget ← widget_of (lookup "widget_id" payload) db
    reject_unknown_keys env.cfg payload
    values ← validate_submission env.cfg env.python widget.fields (lookup "data" payload)
    ok (record { widget = widget; values = values })

  abbrev pub spam_of : Payload → Bool
  spam_of payload = is_trapped env.python (lookup env.cfg.honeypot_field payload)

  abbrev pub new_submission : Payload → Context → Accepted → NewSubmission
  new_submission payload ctx a = record {
    widget_id = a.widget.id;
    tenant_id = a.widget.tenant_id;
    entries = a.values;
    ip = some ctx.ip;
    user_agent = ctx.user_agent;
    referer = ctx.referer;
    location = (enrich env.address env.client env.geo ctx.ip).0;
    is_spam = spam_of payload;
    spam_reason = if spam_of payload then some "honeypot" else none;
    idempotency_key = ctx.idempotency_key;
  }

  -- `receipt(row)` of the row that is found, where None has no `["id"]`
  abbrev pub replay_answer : Option Submission → Outcome (Receipt × ℕ)
  replay_answer none = crash type_error
  replay_answer (some row) = ok (receipt row true, 200)

  abbrev pub new_answer : Bool → Submission → Receipt × ℕ
  new_answer true row = (record { id = row.id; status = "received" }, 202)
  new_answer false row = (receipt row false, 201)

  -- What follows the call of `create`.
  abbrev pub answer :
      Moment
      → Payload
      → Context
      → Accepted
      → Database
      → Outcome (Option Submission)
      → Database × Outcome (Receipt × ℕ)
  answer m payload ctx a db (crash x) = (db, crash x)
  answer m payload ctx a db (http e) = (db, http e)
  answer m payload ctx a db (ok (some row)) = (db, ok (new_answer (spam_of payload) row))
  answer m payload ctx a db (ok none) =
      let later = m.before_refind db in
      (later, replay_answer (find_replay a.widget.id ctx.idempotency_key later))

  -- From the enrichment on.
  unfoldable pub store :
      Moment → Payload → Context → Accepted → Database → Database × Outcome (Receipt × ℕ)
  store m payload ctx a db =
      let (db', created) =
        create m.now (new_submission payload ctx a) (not (spam_of payload)) (m.before_create db) in
      answer m payload ctx a db' created

  -- From the look for a replay on.
  unfoldable pub store_once :
      Moment → Payload → Context → Accepted → Database → Database × Outcome (Receipt × ℕ)
  unfolding store
  store_once m payload ctx a db =
      elim (find_replay a.widget.id (given_key ctx.idempotency_key) db) [
        | some row ↦ (db, ok (receipt row true, 200))
        | none ↦ store m payload ctx a db
      ]

  abbrev pub with_db :
      RateLimiter → Database × Outcome (Receipt × ℕ) → State × Outcome (Receipt × ℕ)
  with_db limiter r = (record { db = r.0; limiter = limiter }, r.1)

  -- From the rate limit on.
  unfoldable pub admit :
      Moment → Payload → Context → Accepted → State → State × Outcome (Receipt × ℕ)
  unfolding store_once
  admit m payload ctx a s =
      let (limiter, verdict) = check env.hz m.readings ctx.ip a.widget.id s.limiter in
      elim (check_rate_limit verdict) [
        | ok u ↦ with_db limiter (store_once m payload ctx a s.db)
        | http e ↦ (record s { limiter = limiter }, http e)
        | crash x ↦ (record s { limiter = limiter }, crash x)
      ]

  -- `submit`
  unfoldable pub submit : Moment → Payload → Context → State → State × Outcome (Receipt × ℕ)
  unfolding accept admit
  submit m payload ctx s = elim (accept payload s.db) [
    | ok a ↦ admit m payload ctx a s
    | http e ↦ (s, http e)
    | crash x ↦ (s, crash x)
  ]
