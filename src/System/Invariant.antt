-- ===== src/System/Invariant.antt =====
-- app/main.py: whatever happens, and in whatever order, the tables stay consistent.
use flyrank_capstone_widgetp.Base.{
  ℕ, ◌+◌, ◌≤◌, Bool, ◌≡◌, refl, List, [], ◌∷◌, ◌++◌, any, str_eq, Bool-cases, inl, inr,
}
use flyrank_capstone_widgetp.Database.{Database, NewSubmission, new_row, conflicts, create}
use flyrank_capstone_widgetp.Database.Consistency.{insert_job-rest}
use flyrank_capstone_widgetp.Submissions.{Env, State}
use flyrank_capstone_widgetp.Widgets.Usable.{AllUsable}
use flyrank_capstone_widgetp.Admin.Access.{admin-AllUsable}
use flyrank_capstone_widgetp.System.{Event, history}
use flyrank_capstone_widgetp.System.Rows.{AreRows, create-AreRows}
use flyrank_capstone_widgetp.System.Turns.{turn-AreRows, turn_rest}
use flyrank_capstone_widgetp.System.Calls.{admin-AreRows}
use flyrank_capstone_widgetp.System.Keeps.{history_keeps}

widgets-create :
    (now : ℕ) (s : NewSubmission) (notify : Bool) (db : Database)
    → (create now s notify db).0.widgets ≡ db.widgets
unfolding create
widgets-create now s notify db = elim (Bool-cases (db.accepts s)) [
  | inr bad ↦ rw bad refl
  | inl good ↦ elim (Bool-cases (conflicts s.widget_id s.idempotency_key db.submissions)) [
    | inl taken ↦ rw (good, taken) refl
    | inr free ↦ elim (Bool-cases (any (λ w. str_eq w.id s.widget_id) db.widgets)) [
      | inr gone ↦ rw (good, free, gone) refl
      | inl there ↦ elim (Bool-cases notify) [
        | inr spam ↦ rw (good, free, there, spam) refl
        | inl lead ↦
            rw (good, free, there, lead)
              (insert_job-rest now db.next_submission (record db {
                submissions = db.submissions ++ new_row db.next_submission now s ∷ [];
                next_submission = db.next_submission + 1;
              })).2
      ]
    ]
  ]
]

module _ (env : Env) (events : List Event) (s : State) where
  -- If the tables are consistent at first, and NOTIFY_MAX_ATTEMPTS is at least one, they stay so whatever
  -- happens: visitors' requests, with what others commit between their statements, calls of the admin
  -- API with any key, deletes and their cascades included, and turns of the worker, however each of
  -- them ends. Every lead keeps exactly one job, no widget holds an idempotency key twice, primary keys
  -- stay unique, and no job is tried more often than NOTIFY_MAX_ATTEMPTS.
  pub history-AreRows :
      1 ≤ env.cfg.notify_max_attempts
      → AreRows env.cfg.notify_max_attempts s.db
      → AreRows env.cfg.notify_max_attempts (history env events s).db
  history-AreRows some_try =
      history_keeps env (AreRows env.cfg.notify_max_attempts)
        (λ now row notify db e v.
          create-AreRows env.cfg.notify_max_attempts now row notify db some_try e v)
        (admin-AreRows env.cfg env.cfg.notify_max_attempts) (turn-AreRows env.cfg) events s

  -- If every stored widget has a usable list of fields at first, then so has every stored widget whatever
  -- happens: what tenants post and patch is checked, and nothing else changes a widget.
  pub history-AllUsable :
      AllUsable env.cfg s.db.widgets → AllUsable env.cfg (history env events s).db.widgets
  history-AllUsable =
      history_keeps env (λ db. AllUsable env.cfg db.widgets)
        (λ now row notify db e u. rw (widgets-create now row notify db) u) (admin-AllUsable env.cfg)
        (λ post t db u. rw (turn_rest env.cfg post t db) u) events s
