-- ===== src/System.antt =====
-- app/main.py: the parts together, over one database and one limiter. An event is a request or a turn of
-- the worker; between two statements of a visitor's request others may commit.
pub mod Deletes
pub mod Rows
pub mod Turns
pub mod Calls
pub mod Keeps
pub mod Invariant
pub mod Leads
mod Tests
use flyrank_capstone_widgetp.Base.{ℕ, Bool, not, Option, List, [], ◌∷◌}
use flyrank_capstone_widgetp.Config.{Config}
use flyrank_capstone_widgetp.Database.{Database, NewSubmission, create}
use flyrank_capstone_widgetp.Notifications.{Webhook}
use flyrank_capstone_widgetp.Notifications.Worker.{Turn, turn}
use flyrank_capstone_widgetp.Accounts.{Accounts, Credentials, Digest}
use flyrank_capstone_widgetp.Admin.{AdminCall, admin}
use flyrank_capstone_widgetp.RateLimit.{Readings}
use flyrank_capstone_widgetp.Posts.{Loads, Post, create_submission}
use flyrank_capstone_widgetp.Submissions.{Env, State, Moment}

-- What is committed in one go: a row of another visitor, a call of the admin API, a turn of the worker.
pub data Commit : Type 0 where
  stores : ℕ → NewSubmission → Commit
  calls : Digest → Option Credentials → AdminCall → Accounts → Commit
  works : Webhook → Turn → Commit

pub data Event : Type 0 where
  committed : Commit → Event
  visits : Loads → Readings → ℕ → List Commit → List Commit → Post → Event

module _ (env : Env) where
  unfoldable pub commit : Commit → Database → Database
  unfolding create admin turn
  commit (stores now s) db = (create now s (not s.is_spam) db).0
  commit (calls hash_key credentials call accounts) db =
      (admin env.cfg hash_key credentials call accounts db).0
  commit (works post t) db = turn env.cfg post t db

  unfoldable pub commits : List Commit → Database → Database
  unfolding commit
  commits [] db = db
  commits (c ∷ cs) db = commits cs (commit c db)

  -- `create_submission`, with what others commit before its insert and before its second look.
  unfoldable pub happens : Event → State → State
  unfolding commits create_submission
  happens (committed c) s = record s { db = commit c s.db }
  happens (visits loads readings now before again post) s =
      (create_submission env loads
        (record {
          readings = readings;
          now = now;
          before_create = commits before;
          before_refind = commits again;
        })
        post s).0

  unfoldable pub history : List Event → State → State
  unfolding happens
  history [] s = s
  history (e ∷ es) s = history es (happens e s)
