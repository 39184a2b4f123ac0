-- ===== src/Submissions/Invariant.antt =====
-- app/services/submissions.py: the tables stay consistent, whatever is posted.
use flyrank_capstone_widgetp.Database.{Database}
use flyrank_capstone_widgetp.Database.Consistency.{IsValid, create-IsValid}
use flyrank_capstone_widgetp.Submissions.{Env, State, Moment, Context, Payload, submit}
use flyrank_capstone_widgetp.Submissions.Keeps.{submit_keeps}

module _ (env : Env) (m : Moment) (payload : Payload) (ctx : Context)
    (others : (db : Database) → IsValid db → IsValid (m.before_create db))
    (later : (db : Database) → IsValid db → IsValid (m.before_refind db)) where
  -- A submission keeps the tables consistent, however it ends: no widget holds a key twice, the
  -- sequence is ahead of every number, every lead has exactly one job, and spam has none.
  -- What others commit meanwhile is supposed to keep them consistent too.
  pub submit-IsValid : (s : State) → IsValid s.db → IsValid (submit env m payload ctx s).0.db
  submit-IsValid = submit_keeps env m payload ctx IsValid create-IsValid others later
