-- ===== src/Submissions/Keeps.antt =====
-- app/services/submissions.py: what every insert keeps, and what is committed meanwhile keeps, every
-- submission keeps.
use flyrank_capstone_widgetp.Base.{
  ℕ, Bool, not, ◌≡◌, refl, Option, none, some, Option-cases, inl, inr,
}
use flyrank_capstone_widgetp.Http.{Outcome, ok, http, crash}
use flyrank_capstone_widgetp.Schema.{Submission}
use flyrank_capstone_widgetp.RateLimit.{check}
use flyrank_capstone_widgetp.Database.{Database, NewSubmission, create}
use flyrank_capstone_widgetp.Submissions.{
  Env, State, Moment, Context, Payload, Accepted, given_key, find_replay, accept, spam_of,
  new_submission, answer, store_once, admit, submit,
}

module _ (env : Env) (m : Moment) (payload : Payload) (ctx : Context) (P : Database → Type 0)
    (created : (now : ℕ) (row : NewSubmission) (notify : Bool) (db : Database)
      → notify ≡ not row.is_spam
      → P db
      → P (create now row notify db).0)
    (others : (db : Database) → P db → P (m.before_create db))
    (later : (db : Database) → P db → P (m.before_refind db)) where
  answer_keeps :
      (a : Accepted) (db : Database) (r : Outcome (Option Submission))
      → P db
      → P (answer env m payload ctx a db r).0
  answer_keeps a db (ok (some row)) v = v
  answer_keeps a db (ok none) v = later db v
  answer_keeps a db (http e) v = v
  answer_keeps a db (crash x) v = v

  store_once_keeps : (a : Accepted) (db : Database) → P db → P (store_once env m payload ctx a db).0
  unfolding store_once
  store_once_keeps a db v =
      elim (Option-cases (find_replay a.widget.id (given_key ctx.idempotency_key) db)) [
        | inr (row, f) ↦ rw (f, store_once) v
        | inl n ↦
            rw (n, store_once)
              (answer_keeps a _ _ (
                created m.now (new_submission env payload ctx a) (not (spam_of env payload))
                  (m.before_create db) refl (others db v)))
      ]

  admit_keeps : (a : Accepted) (s : State) → P s.db → P (admit env m payload ctx a s).0.db
  unfolding admit
  admit_keeps a s v = elim (Option-cases (check env.hz m.readings ctx.ip a.widget.id s.limiter).1) [
    | inl n ↦ rw (n, admit) (store_once_keeps a s.db v)
    | inr ((scope, wait), e) ↦ rw (e, admit) v
  ]

  pub submit_keeps : (s : State) → P s.db → P (submit env m payload ctx s).0.db
  unfolding submit
  submit_keeps s v = go (accept env payload s.db) refl
    where
      go :
          (r : Outcome Accepted) → accept env payload s.db ≡ r → P (submit env m payload ctx s).0.db
      go (ok a) e = rw (e, submit) (admit_keeps a s v)
      go (http x) e = rw (e, submit) v
      go (crash x) e = rw (e, submit) v
