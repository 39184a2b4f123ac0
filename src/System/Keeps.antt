-- ===== src/System/Keeps.antt =====
-- app/main.py: what inserts, calls and turns keep, every history keeps.
use flyrank_capstone_widgetp.Base.{ℕ, Bool, not, ◌≡◌, refl, Option, List, [], ◌∷◌}
use flyrank_capstone_widgetp.Http.{Outcome, ok, http, crash}
use flyrank_capstone_widgetp.Database.{Database, NewSubmission, create}
use flyrank_capstone_widgetp.Notifications.{Webhook}
use flyrank_capstone_widgetp.Notifications.Worker.{Turn, turn}
use flyrank_capstone_widgetp.Accounts.{Accounts, Credentials, Digest}
use flyrank_capstone_widgetp.Admin.{AdminCall, admin}
use flyrank_capstone_widgetp.Posts.{Loads, Post, read_payload, context_of, create_submission}
use flyrank_capstone_widgetp.Submissions.{Env, State, Moment, Payload}
use flyrank_capstone_widgetp.Submissions.Keeps.{submit_keeps}
use flyrank_capstone_widgetp.System.{
  Commit, stores, calls, works, Event, committed, visits, commit, commits, happens, history,
}

module _ (env : Env) (P : Database → Type 0)
    (created : (now : ℕ) (row : NewSubmission) (notify : Bool) (db : Database)
      → notify ≡ not row.is_spam
      → P db
      → P (create now row notify db).0)
    (called : (hash_key : Digest) (c : Option Credentials) (call : AdminCall) (a : Accounts)
        (db : Database)
      → P db
      → P (admin env.cfg hash_key c call a db).0)
    (worked : (post : Webhook) (t : Turn) (db : Database) → P db → P (turn env.cfg post t db)) where
  commit_keeps : (c : Commit) (db : Database) → P db → P (commit env c db)
  unfolding commit
  commit_keeps (stores now s) db v = created now s (not s.is_spam) db refl v
  commit_keeps (calls hash_key c call a) db v = called hash_key c call a db v
  commit_keeps (works post t) db v = worked post t db v

  commits_keeps : (cs : List Commit) (db : Database) → P db → P (commits env cs db)
  unfolding commits
  commits_keeps [] db v = v
  commits_keeps (c ∷ cs) db v = commits_keeps cs (commit env c db) (commit_keeps c db v)

  create_submission_keeps :
      (loads : Loads) (m : Moment) (post : Post) (s : State)
      → ((db : Database) → P db → P (m.before_create db))
      → ((db : Database) → P db → P (m.before_refind db))
      → P s.db
      → P (create_submission env loads m post s).0.db
  unfolding create_submission
  create_submission_keeps loads m post s others later v = go (read_payload env.cfg loads post) refl
    where
      go :
          (r : Outcome Payload)
          → read_payload env.cfg loads post ≡ r
          → P (create_submission env loads m post s).0.db
      go (ok payload) e =
          rw (e, create_submission)
            (submit_keeps env m payload (context_of env.cfg post) P created others later s v)
      go (http x) e = rw (e, create_submission) v
      go (crash x) e = rw (e, create_submission) v

  happens_keeps : (e : Event) (s : State) → P s.db → P (happens env e s).db
  unfolding happens
  happens_keeps (committed c) s v = commit_keeps c s.db v
  happens_keeps (visits loads readings now before again post) s v =
      create_submission_keeps loads _ post s (commits_keeps before) (commits_keeps again) v

  pub history_keeps : (events : List Event) (s : State) → P s.db → P (history env events s).db
  unfolding history
  history_keeps [] s v = v
  history_keeps (e ∷ events) s v = history_keeps events (happens env e s) (happens_keeps e s v)
