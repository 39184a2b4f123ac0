-- ===== src/Database/Replays.antt =====
-- app/repositories/submissions.py: how an insert ends, and that a key that is stored is found.
use flyrank_capstone_widgetp.Base.{
  ℕ, ◌+◌, String, Bool, true, false, ◌≡◌, refl, Option, none, some, List, [], ◌∷◌, ◌++◌, arith,
  find, any, str_eq, Bool-cases, inl, inr, if◌then◌else◌, eq_refl,
}
use flyrank_capstone_widgetp.Http.{Outcome, ok, crash, foreign_key_violation, data_error}
use flyrank_capstone_widgetp.Schema.{Submission}
use flyrank_capstone_widgetp.Database.{
  Database, NewSubmission, new_row, is_replay, conflicts, insert_job, create,
}
use flyrank_capstone_widgetp.Database.Consistency.{insert_job-rest}

-- The four ways in which `create` can go.
pub data Creates (now : ℕ) (s : NewSubmission) (db : Database)
    (r : Database × Outcome (Option Submission)) : Type 0 where
  unstorable :
      db.accepts s ≡ false
      → r.1 ≡ crash data_error
      → r.0.submissions ≡ db.submissions
      → r.0.jobs ≡ db.jobs
      → Creates now s db r
  taken :
      conflicts s.widget_id s.idempotency_key db.submissions ≡ true
      → r.1 ≡ ok none
      → r.0.submissions ≡ db.submissions
      → r.0.jobs ≡ db.jobs
      → Creates now s db r
  stored :
      conflicts s.widget_id s.idempotency_key db.submissions ≡ false
      → r.1 ≡ ok (some (new_row db.next_submission now s))
      → r.0.submissions ≡ db.submissions ++ new_row db.next_submission now s ∷ []
      → Creates now s db r
  gone :
      conflicts s.widget_id s.idempotency_key db.submissions ≡ false
      → any (λ w. str_eq w.id s.widget_id) db.widgets ≡ false
      → r.1 ≡ crash foreign_key_violation
      → r.0.submissions ≡ db.submissions
      → r.0.jobs ≡ db.jobs
      → Creates now s db r

submissions-notify :
    (notify : Bool) (now id : ℕ) (db : Database)
    → (if notify then insert_job now id db else db).submissions ≡ db.submissions
submissions-notify true now id db = (insert_job-rest now id db).0
submissions-notify false now id db = refl

-- An insert goes one of four ways: its values are refused, and it fails with no row and no job
-- changed; its key is taken, and it answers none and changes no row and no job; it is stored as
-- exactly one new row, which it answers; or its widget is gone, and it fails with no row and no job
-- changed.
pub create-Creates :
    (now : ℕ) (s : NewSubmission) (notify : Bool) (db : Database)
    → Creates now s db (create now s notify db)
unfolding create
create-Creates now s notify db = elim (Bool-cases (db.accepts s)) [
  | inr bad ↦ unstorable bad (rw bad) (rw bad) (rw bad)
  | inl good ↦ elim (Bool-cases (conflicts s.widget_id s.idempotency_key db.submissions)) [
    | inl t ↦ taken t (rw (good, t)) (rw (good, t)) (rw (good, t))
    | inr free ↦ elim (Bool-cases (any (λ w. str_eq w.id s.widget_id) db.widgets)) [
      | inl there ↦ stored free (rw (good, free, there)) (
          rw (good, free, there)
            (submissions-notify notify now db.next_submission (record db {
              submissions = db.submissions ++ new_row db.next_submission now s ∷ [];
              next_submission = db.next_submission + 1;
            })))
      | inr away ↦
          gone free away (rw (good, free, away)) (rw (good, free, away)) (rw (good, free, away))
    ]
  ]
]

find-append :
    {A : Type 0} (p : A → Bool) (rows : List A) (row : A)
    → any p rows ≡ false
    → p row ≡ true
    → find p (rows ++ row ∷ []) ≡ some row
find-append p [] row h k = rw k
find-append p (r ∷ rows) row h k = ground (arith, find-append p rows row)

-- Looking for a key finds a row exactly where the index holds it.
conflicts_of_find :
    (widget_id key : String) (rows : List Submission)
    → find (is_replay widget_id key) rows ≡ none
    → conflicts widget_id (some key) rows ≡ false
conflicts_of_find widget_id key [] h = refl
conflicts_of_find widget_id key (r ∷ rows) h = ground (arith, conflicts_of_find widget_id key rows)

pub find_of_conflicts :
    (widget_id key : String) (rows : List Submission)
    → conflicts widget_id (some key) rows ≡ true
    → (row : Submission) × (find (is_replay widget_id key) rows ≡ some row)
find_of_conflicts widget_id key [] h = cc
find_of_conflicts widget_id key (r ∷ rows) h = elim (Bool-cases (is_replay widget_id key r)) [
  | inl e ↦ (r, rw e)
  | inr e ↦
      let found = find_of_conflicts widget_id key rows (ground arith) in (found.0, rw e found.1)
]

-- A row that is stored under a key that no other row had is what a look for that key finds.
pub find-new_row :
    (now id : ℕ) (s : NewSubmission) (rows : List Submission) (key : String)
    → s.idempotency_key ≡ some key
    → conflicts s.widget_id s.idempotency_key rows ≡ false
    → find (is_replay s.widget_id key) (rows ++ new_row id now s ∷ []) ≡ some (new_row id now s)
find-new_row now id s rows key k free =
    find-append (is_replay s.widget_id key) rows (new_row id now s) (rw k at free)
      (rw k (ground (arith, eq_refl s.widget_id, eq_refl key)))
