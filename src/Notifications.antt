-- ===== src/Notifications.antt =====
-- app/services/notifications.py and app/repositories/notifications.py: the queue of jobs and the
-- worker that empties it. One statement is one step on the table; `now` is the database's clock, in
-- seconds. The webhook's answer (httpx) is a parameter. The column `updated_at`, which nothing
-- reads, is left out.
pub mod Claims
pub mod Attempts
pub mod Stuck
pub mod Budget
pub mod Worker
pub mod Batches
pub mod Lifecycle
pub mod Runs
pub mod Settled
pub mod Progress
pub mod Ends
mod Tests
use flyrank_capstone_widgetp.Base.{
  ℕ, zero, suc, ◌+◌, ◌^◌, min, String, Bool, true, false, not, ◌&&◌, Option, none, some, List, [],
  ◌∷◌, map, select, find, any, take, leb, ◌==◌, str_eq, lookup, if◌then◌else◌,
}
use flyrank_capstone_widgetp.Json.{Json, str}
use flyrank_capstone_widgetp.Config.{Config}
use flyrank_capstone_widgetp.Schema.{
  Widget, Submission, Job, Status, pending, processing, delivered, dead,
}
use flyrank_capstone_widgetp.Database.{Database}

abbrev pub batch_size : ℕ
batch_size = 10

abbrev pub max_backoff_seconds : ℕ
max_backoff_seconds = 300

abbrev pub is_pending : Status → Bool
is_pending pending = true
is_pending _ = false

-- `status = 'pending' AND next_attempt_at <= now()`
abbrev pub is_due : ℕ → Job → Bool
is_due now j = is_pending j.status && leb j.next_attempt_at now

-- `ORDER BY next_attempt_at`; the database leaves open which of two equal instants comes first.
abbrev pub insert_by_due : Job → List Job → List Job
insert_by_due j [] = j ∷ []
insert_by_due j (k ∷ ks) =
    let rest = insert_by_due j ks in
    if leb j.next_attempt_at k.next_attempt_at then j ∷ k ∷ ks else k ∷ rest

abbrev pub sort_by_due : List Job → List Job
sort_by_due [] = []
sort_by_due (j ∷ js) = insert_by_due j (sort_by_due js)

-- `SET status = 'processing', attempts = attempts + 1`
abbrev pub claimed : Job → Job
claimed j = record j { status = processing; attempts = j.attempts + 1 }

abbrev pub has_id : ℕ → Job → Bool
has_id id j = j.id == id

abbrev pub update_where : (Job → Bool) → (Job → Job) → List Job → List Job
update_where p f = map (λ j. if p j then f j else j)

abbrev pub chosen : ℕ → ℕ → List Job → List Job
chosen now limit jobs = take limit (sort_by_due (select (is_due now) jobs))

-- `WHERE id IN (…)`
abbrev pub is_among : List Job → Job → Bool
is_among ks j = any (has_id j.id) ks

-- `claim_due`: the table, and the rows that it returns.
unfoldable pub claim_due : ℕ → ℕ → List Job → List Job × List Job
claim_due now limit jobs =
    let due = chosen now limit jobs in (update_where (is_among due) claimed jobs, map claimed due)

abbrev pub is_pending_for : ℕ → Job → Bool
is_pending_for submission_id j = j.submission_id == submission_id && is_pending j.status

-- `claim_one`
unfoldable pub claim_one : ℕ → List Job → List Job × Option Job
claim_one submission_id jobs = (
  update_where (is_pending_for submission_id) claimed jobs,
  elim (find (is_pending_for submission_id) jobs) [ none ↦ none | some j ↦ some (claimed j) ],
)

-- `error[:500]`
abbrev pub clip : ℕ → String → String
clip zero s = String.[]
clip (suc n) String.[] = String.[]
clip (suc n) (String.◌∷◌ c s) = String.◌∷◌ c (clip n s)

abbrev pub delivered_row : Job → Job
delivered_row j = record j { status = delivered; last_error = none }

abbrev pub rescheduled_row : ℕ → ℕ → String → Job → Job
rescheduled_row now delay error j = record j {
  status = pending;
  last_error = some (clip 500 error);
  next_attempt_at = now + delay;
}

abbrev pub dead_row : String → Job → Job
dead_row error j = record j { status = dead; last_error = some (clip 500 error) }

unfoldable pub mark_delivered : ℕ → List Job → List Job
mark_delivered id = update_where (has_id id) delivered_row

unfoldable pub reschedule : ℕ → ℕ → ℕ → String → List Job → List Job
reschedule now id delay error = update_where (has_id id) (rescheduled_row now delay error)

unfoldable pub mark_dead : ℕ → String → List Job → List Job
mark_dead id error = update_where (has_id id) (dead_row error)

-- The columns of `payload_for` that a delivery reads.
pub record Notice : Type 0 where
  pub submission : Submission
  pub widget_title : String

abbrev pub notice_of : Submission → Option Widget → Option Notice
notice_of s none = none
notice_of s (some w) = some (record { submission = s; widget_title = w.title })

-- `payload_for`: the submission joined with its widget
unfoldable pub payload_for : ℕ → Database → Option Notice
payload_for submission_id db = elim (find (λ s. s.id == submission_id) db.submissions) [
  | none ↦ none
  | some s ↦ notice_of s (find (λ w. str_eq w.id s.widget_id) db.widgets)
]

-- `min(2 ** job["attempts"], MAX_BACKOFF_SECONDS)`
abbrev pub backoff : ℕ → ℕ
backoff attempts = min (2 ^ attempts) max_backoff_seconds

-- The webhook at an instant: an error's text, or `none` where it is delivered.
abbrev pub Webhook : Type 0
Webhook = ℕ → Notice → Option String

module _ (cfg : Config) (post : Webhook) where
  -- `deliver`: the text of the exception that it raises, if it does.
  unfoldable pub deliver : ℕ → Notice → Option String
  deliver now notice =
      if cfg.notify_force_failure
      then some "RuntimeError: forced failure (NOTIFY_FORCE_FAILURE=1)"
      else if str_eq cfg.webhook_url ""
      then none
      else post now notice

  -- `handle_failure`
  unfoldable pub handle_failure : ℕ → Job → String → List Job → List Job
  unfolding mark_dead reschedule
  handle_failure now job error jobs =
      if leb cfg.notify_max_attempts job.attempts
      then mark_dead job.id error jobs
      else reschedule now job.id (backoff job.attempts) error jobs

  abbrev pub conclude : ℕ → Job → Option String → List Job → List Job
  conclude now job none jobs = mark_delivered job.id jobs
  conclude now job (some error) jobs = handle_failure now job error jobs

  abbrev pub process_notice : ℕ → Job → Option Notice → List Job → List Job
  process_notice now job none jobs = mark_dead job.id "submission no longer exists" jobs
  process_notice now job (some notice) jobs = conclude now job (deliver now notice) jobs

  -- `process`
  unfoldable pub process : ℕ → Job → Database → Database
  unfolding payload_for deliver handle_failure mark_delivered mark_dead
  process now job db = record db {
    jobs = process_notice now job (payload_for job.submission_id db) db.jobs;
  }

  -- `at` is the instant at which each job of the batch is settled.
  unfoldable pub process_all : (Job → ℕ) → List Job → Database → Database
  process_all at [] db = db
  process_all at (job ∷ jobs) db = process_all at jobs (process (at job) job db)

  -- `tick`: a batch is claimed, and each of its jobs processed.
  unfoldable pub tick : ℕ → (Job → ℕ) → Database → Database
  unfolding claim_due process_all
  tick now at db =
      let (jobs, batch) = claim_due now batch_size db.jobs in
      process_all at batch (record db { jobs = jobs })
