-- ===== src/Database.antt =====
-- The tables of migrations/001_init.sql and the statements of app/repositories/submissions.py, with
-- `WidgetsRepository.get_public`. A statement is a function of the tables; what one connection
-- commits is one step. `now` is the database's clock.
pub mod Consistency
pub mod Replays
mod Tests
use flyrank_capstone_widgetp.Base.{
  ℕ, ◌+◌, String, Bool, true, false, not, ◌&&◌, Option, none, some, List, [], ◌∷◌, ◌++◌, select,
  find, any, ◌==◌, str_eq, if◌then◌else◌,
}
use flyrank_capstone_widgetp.Json.{Json}
use flyrank_capstone_widgetp.Http.{Outcome, ok, crash, foreign_key_violation, data_error}
use flyrank_capstone_widgetp.Schema.{Widget, Location, Submission, Job, pending}

-- The values that `SubmissionsService.submit` hands to `create`.
pub record NewSubmission : Type 0 where
  pub widget_id : String
  pub tenant_id : ℕ
  pub entries : List (String × Json)
  pub ip : Option String
  pub user_agent : Option String
  pub referer : Option String
  pub location : Location
  pub is_spam : Bool
  pub spam_reason : Option String
  pub idempotency_key : Option String

-- The sequences count on also where the row that asked for a number is not kept. The server and its
-- driver refuse some values as data, such as a text with a NUL or a JSON number that is no number:
-- `takes` says of a text, and `accepts` of a row's values, that they can be sent and stored.
pub record Database : Type 0 where
  pub widgets : List Widget
  pub submissions : List Submission
  pub jobs : List Job
  pub next_submission : ℕ
  pub next_job : ℕ
  pub takes : String → Bool
  pub accepts : NewSubmission → Bool

-- `get_public`
unfoldable pub get_public : String → Database → Outcome (Option Widget)
get_public widget_id db =
    if db.takes widget_id
    then ok (find (λ w. str_eq w.id widget_id) db.widgets)
    else crash data_error

abbrev pub new_row : ℕ → ℕ → NewSubmission → Submission
new_row id now s = record {
  id = id;
  widget_id = s.widget_id;
  tenant_id = s.tenant_id;
  entries = s.entries;
  ip = s.ip;
  user_agent = s.user_agent;
  referer = s.referer;
  location = s.location;
  is_spam = s.is_spam;
  spam_reason = s.spam_reason;
  idempotency_key = s.idempotency_key;
  created_at = now;
}

-- `idempotency_key = %s`, which no NULL satisfies
abbrev pub key_is : String → Option String → Bool
key_is key none = false
key_is key (some k) = str_eq k key

abbrev pub is_replay : String → String → Submission → Bool
is_replay widget_id key row = str_eq row.widget_id widget_id && key_is key row.idempotency_key

-- `find_by_idempotency_key`
unfoldable pub find_by_idempotency_key : String → String → Database → Option Submission
find_by_idempotency_key widget_id key db = find (is_replay widget_id key) db.submissions

-- The partial unique index: does a row hold the pair already?
abbrev pub conflicts : String → Option String → List Submission → Bool
conflicts widget_id none rows = false
conflicts widget_id (some key) rows = any (is_replay widget_id key) rows

abbrev pub new_job : ℕ → ℕ → ℕ → Job
new_job id now submission_id = record {
  id = id;
  submission_id = submission_id;
  status = pending;
  attempts = 0;
  next_attempt_at = now;
  last_error = none;
}

-- INSERT INTO notification_jobs … ON CONFLICT (submission_id) DO NOTHING
unfoldable pub insert_job : ℕ → ℕ → Database → Database
insert_job now submission_id db =
    let drawn = record db { next_job = db.next_job + 1 } in
    if any (λ j. j.submission_id == submission_id) db.jobs
    then drawn
    else record drawn { jobs = db.jobs ++ new_job db.next_job now submission_id ∷ [] }

-- `create`: one transaction. Values that are refused fail the INSERT before it draws a number.
-- Otherwise the row, or `none` where the index holds the key; a widget that is gone fails the foreign
-- key, and the transaction with it.
unfoldable pub create : ℕ → NewSubmission → Bool → Database → Database × Outcome (Option Submission)
unfolding insert_job
create now s notify db =
    let row = new_row db.next_submission now s in
    let drawn = record db { next_submission = db.next_submission + 1 } in
    let stored = record drawn { submissions = db.submissions ++ row ∷ [] } in
    if not (db.accepts s)
    then (db, crash data_error)
    else if conflicts s.widget_id s.idempotency_key db.submissions
    then (drawn, ok none)
    else if any (λ w. str_eq w.id s.widget_id) db.widgets
    then (if notify then insert_job now row.id stored else stored, ok (some row))
    else (drawn, crash foreign_key_violation)
